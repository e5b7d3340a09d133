-- ===== src/Hoop/Add.antt =====
-- src/apis/v1/http/hoop.rs, `add_hoop`.
use hoopoe.Base.{
  ℕ, ◌-◌, ◌*◌, Text, codes, [], ◌++◌, Bool, true, false, Option, none, some, if◌then◌else◌, leb, ℤ,
  pos, negsuc, ltb_ℤ, parse_i64, as_u64, Outcome, done, panic, ◌>>=◌, unwrap,
}
use hoopoe.Models.{Response, reject, not_acceptable_status, invalid_end_time}
use hoopoe.Service.{Services}

-- The form's fields that the handler reads, and whether the upload has a cover.
pub record HoopEventForm : Type 0 where
  pub title : Text
  pub started_at : Text
  pub end_at : Text
  pub invitations : Text
  pub has_cover : Bool

-- chrono and serde_json: the day of a timestamp, counted from chrono's first, if it is in range; and
-- whether a text reads as the invitations.
pub record FormApi : Type 0 where
  pub day_of : ℤ → Option ℕ
  pub reads_invitations : Text → Bool

unfoldable pub hoop_key : Text → Text → Text
hoop_key title started_at = codes "hoop_" ++ (title ++ (codes "_at_" ++ started_at))

-- `(end - now).num_seconds()` for two dates.
unfoldable pub seconds_between : ℕ → ℕ → ℤ
seconds_between now end_day =
    if leb now end_day then pos (86400 * (end_day - now)) else negsuc (86400 * (now - end_day) - 1)

unfoldable pub ensure : Bool → Outcome Bool
ensure true = done true
ensure false = panic

module _ (V : Services) (F : FormApi) where
  -- What is left in Redis, and the response that was rendered, if one was. `today` is the day of the
  -- local clock. The rejection does not return.
  unfoldable pub add_hoop : HoopEventForm → ℕ → V.Store → Outcome (V.Store × Option Response)
  unfolding seconds_between hoop_key ensure
  add_hoop hoop_info today s = do
    _ ← ensure hoop_info.has_cover
    _ ← ensure (F.reads_invitations hoop_info.invitations)
    hoop_end_time ← unwrap (parse_i64 hoop_info.end_at)
    hoop_start_time ← unwrap (parse_i64 hoop_info.started_at)
    end_day ← unwrap (F.day_of hoop_end_time)
    t ← unwrap (
        V.set_ex s (hoop_key hoop_info.title hoop_info.started_at) []
          (as_u64 (seconds_between today end_day)))
    done (
      t,
      if ltb_ℤ hoop_end_time hoop_start_time
          then some (reject not_acceptable_status invalid_end_time)
          else none,
    )
