-- ===== src/Service/Serde.antt =====
-- serde_json on the types that the code writes and reads: reading gives back what was written.
use hoopoe.Base.{Text, List, Option, some, ◌≡◌}
use hoopoe.Models.{NotifData, SecureCellConfig}

pub record SerdeApi : Type 0 where
  pub encode_notif : NotifData → Text
  pub decode_notif : Text → Option NotifData
  pub decode-encode_notif : (d : NotifData) → decode_notif (encode_notif d) ≡ some d
  pub encode_events : List NotifData → Text
  pub decode_events : Text → Option (List NotifData)
  pub decode-encode_events : (ds : List NotifData) → decode_events (encode_events ds) ≡ some ds
  pub encode_config : SecureCellConfig → Text
  pub decode_config : Text → Option SecureCellConfig
  pub decode-encode_config : (c : SecureCellConfig) → decode_config (encode_config c) ≡ some c
