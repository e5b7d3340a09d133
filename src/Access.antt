-- ===== src/Access.antt =====
-- Who may register notifications: src/interfaces/passport.rs, src/apis/v1/http/auth.rs and the
-- middlewares src/middlewares/passport.rs and check_token.rs. A request is its header of interest.
pub mod Passport
pub mod User
pub mod Token
pub mod Guard
pub mod PassportLaws
pub mod TokenLaws
pub mod History
pub mod Elsewhere
pub mod HistoryLaws
