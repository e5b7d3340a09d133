-- ===== src/Health.antt =====
-- src/apis/v1/http/health.rs: the state of the services, and the upload of pictures.
pub mod Check
pub mod CheckLaws
pub mod Picture
pub mod PictureLaws
