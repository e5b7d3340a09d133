-- ===== src/Api/Untouched.antt =====
-- Which keys of Redis the handler `get_notif` of src/apis/v1/http/notif.rs, with the accessor's
-- caching, leaves alone.
use hoopoe.Base.{
  ℕ, Text, codes, [], Bool, false, Option, none, some, text_eq, Outcome, done, panic, ◌>>=◌, ◌≡◌,
  refl, arith, inl, inr, Option-cases, Bool-cases,
}
use hoopoe.Models.{EventQuery}
use hoopoe.Service.{Services}
use hoopoe.Api.Accessor.{
  NotifDataResponse, AnswerApi, DbApi, RequestNotifData, Select, select_of, is_reversed, last_page,
  owner_answer_key, cache_answer, answer_query, get_for_owner, get_all, answered,
}
use hoopoe.Api.Fetch.{FetchEnv, report_of, cached_or, get_notif}

module _ (V : Services) {Row : Type 0} (W : AnswerApi Row) (exp : Option ℕ) (other : Text) where
  -- The value under the key stays as it is.
  abbrev pub Kept {ℓ} : {A : Type ℓ} → V.Store → Outcome (V.Store × A) → Type 0
  Kept s panic = Unit
  Kept s (done r) = V.get r.0 other ≡ V.get s other

  module _ (owner_differs : (owner : Text) → text_eq (owner_answer_key owner) other ≡ false)
      (all_differs : text_eq (codes "all_notif_api_resp") other ≡ false) where
    cache_answer-Kept :
        (key : Text) (answer : NotifDataResponse Row) (s : V.Store)
        → text_eq key other ≡ false
        → Kept s (cache_answer V W exp key answer s >>= λ t. done (t, some answer))
    unfolding cache_answer
    cache_answer-Kept key answer s differs = elim (Bool-cases (V.exists s key)) [
      | inl there ↦
          rw there (ground (arith, V.get-set s key (W.encode_answer answer) other, differs))
      | inr absent ↦ elim (Option-cases exp) [
        | inl e ↦ rw (absent, e) tt
        | inr (n, e) ↦ elim (Option-cases (V.set_ex s key (W.encode_answer answer) n)) [
          | inl refused ↦ rw (absent, e, refused) tt
          | inr (t, taken) ↦
              rw (absent, e, taken)
                (ground
                  (arith, V.get-set_ex s t key (W.encode_answer answer) n other taken, differs))
        ]
      ]
    ]

    answer_query-Kept :
        (D : DbApi Row) (select : Select) (pool_ok : Bool) (key : Text) (s : V.Store)
        → text_eq key other ≡ false
        → Kept s (answer_query V W exp D select pool_ok key s)
    unfolding answer_query
    answer_query-Kept D select pool_ok key s differs =
        elim (Option-cases (D.num_items_and_pages select)) [
          | inl e ↦ rw (e, answer_query) refl
          | inr (counts, e) ↦ elim (Option-cases (D.fetch select)) [
            | inl e' ↦ rw (e, e', answer_query) tt
            | inr (found, e') ↦ elim (Bool-cases pool_ok) [
              | inl up ↦
                  rw (e, e', up, answer_query)
                    (cache_answer-Kept key
                      (record {
                        notifs = last_page [] found.0;
                        items = counts.0;
                        pages = counts.1;
                        current_page = found.1;
                      })
                      s differs)
              | inr down ↦ rw (e, e', down, answer_query) refl
            ]
          ]
        ]

    answered-Kept :
        (s : V.Store) (o : Outcome (V.Store × Option (NotifDataResponse Row)))
        → Kept s o
        → V.get (answered V W exp s o).0 other ≡ V.get s other
    unfolding answered
    answered-Kept s panic kept = refl
    answered-Kept s (done r) kept = kept

    cached_or-Kept :
        (env : FetchEnv) (key : Text)
        (ask : V.Store → Outcome (V.Store × Option (NotifDataResponse Row))) (s : V.Store)
        → Kept s (ask s)
        → Kept s (cached_or V W exp env key ask s)
    unfolding cached_or
    cached_or-Kept env key ask s kept = elim (Bool-cases env.pool_ok) [
      | inr down ↦ rw (down, cached_or) refl
      | inl up ↦ elim (Bool-cases (V.exists s key)) [
        | inl there ↦ elim (Option-cases (V.get s key)) [
          | inl e ↦ rw (up, there, e, cached_or) tt
          | inr (text, e) ↦ elim (Option-cases (W.decode_answer text)) [
            | inl e' ↦ rw (up, there, e, e', cached_or) tt
            | inr (decoded, e') ↦ rw (up, there, e, e', cached_or) refl
          ]
        ]
        | inr absent ↦ elim (Bool-cases env.accessor_up) [
          | inl taken ↦ rw (up, absent, taken, cached_or) (answered-Kept s (ask s) kept)
          | inr refused ↦ rw (up, absent, refused, cached_or) refl
        ]
      ]
    ]

    get_for_owner-Kept :
        (D : DbApi Row) (owner : Text) (report : RequestNotifData) (pool_ok : Bool) (s : V.Store)
        → Kept s (get_for_owner V W exp D (some owner) report pool_ok s)
    unfolding get_for_owner
    get_for_owner-Kept D owner report pool_ok s = elim (Bool-cases (is_reversed report)) [
      | inl reversed ↦ rw (reversed, get_for_owner) refl
      | inr forward ↦
          rw (forward, get_for_owner)
            (answer_query-Kept D (select_of (some owner) report) pool_ok (owner_answer_key owner) s
              (owner_differs owner))
    ]

    get_all-Kept :
        (D : DbApi Row) (report : RequestNotifData) (pool_ok : Bool) (s : V.Store)
        → Kept s (get_all V W exp D report pool_ok s)
    unfolding get_all
    get_all-Kept D report pool_ok s = elim (Bool-cases (is_reversed report)) [
      | inl reversed ↦ rw (reversed, get_all) refl
      | inr forward ↦
          rw (forward, get_all)
            (answer_query-Kept D (select_of none report) pool_ok (codes "all_notif_api_resp") s
              all_differs)
    ]

    pub get_notif-Kept :
        (D : DbApi Row) (env : FetchEnv) (query : EventQuery) (s : V.Store)
        → Kept s (get_notif V W exp D env query s)
    unfolding get_notif
    get_notif-Kept D env query s = elim (Option-cases query.id) [
      | inr (id, e) ↦ rw (e, get_notif) refl
      | inl e ↦ elim (Option-cases query.owner) [
        | inr (owner, o) ↦
            rw (e, o, get_notif)
              (cached_or-Kept env (owner_answer_key owner)
                (get_for_owner V W exp D (some owner) (report_of query) env.accessor_pool_ok) s
                (get_for_owner-Kept D owner (report_of query) env.accessor_pool_ok s))
        | inl o ↦
            rw (e, o, get_notif)
              (cached_or-Kept env (codes "all_notifs_api_resp")
                (get_all V W exp D (report_of query) env.accessor_pool_ok) s
                (get_all-Kept D (report_of query) env.accessor_pool_ok s))
      ]
    ]
