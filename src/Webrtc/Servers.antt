-- ===== src/Webrtc/Servers.antt =====
-- sf-webrtc/src/ice_server.rs.
use sf_rs.Prelude.{
  ℕ, List, [], ◌∷◌, ◌≡◌, refl, Option, none, some, Outcome, ok, err, panic, codes, arith,
}
use sf_rs.Webrtc.Errors.{WebRtcError, serde_error}

-- `STUN_SERVERS`.
abbrev pub stun_servers : List (List ℕ)
stun_servers = codes "stun:157.90.152.156:3478" ∷ []

pub record IceServer : Type 0 where
  pub urls : List (List ℕ)
  pub username : Option (List ℕ)
  pub credential : Option (List ℕ)

-- `Default`.
abbrev pub default_server : IceServer
default_server = record { urls = stun_servers; username = none; credential = none }

-- `web_sys::RtcIceServer`: its `urls` are a JavaScript value.
pub record RtcIceServer (Js : Type 0) : Type 0 where
  pub rtc_urls : Js
  pub rtc_username : Option (List ℕ)
  pub rtc_credential : Option (List ℕ)

-- `serde_wasm_bindgen`, on lists of texts.
pub record UrlCodec (Js : Type 0) : Type 0 where
  pub to_value : List (List ℕ) → Outcome Js Js
  pub from_value : Js → Outcome Js (List (List ℕ))

module _ {Js : Type 0} (codec : UrlCodec Js) where
  abbrev with_urls :
      Option (List ℕ)
      → Option (List ℕ)
      → Outcome Js (List (List ℕ))
      → Outcome (WebRtcError Js) IceServer
  with_urls username credential (ok urls) =
      ok (record { urls = urls; username = username; credential = credential })
  with_urls username credential (err e) = err (serde_error e)
  with_urls username credential panic = panic

  -- `TryFrom<RtcIceServer> for IceServer`.
  unfoldable pub from_rtc_server : RtcIceServer Js → Outcome (WebRtcError Js) IceServer
  from_rtc_server r = with_urls r.rtc_username r.rtc_credential (codec.from_value r.rtc_urls)

  abbrev set_username : Option (List ℕ) → RtcIceServer Js → RtcIceServer Js
  set_username none r = r
  set_username (some username) r = record r { rtc_username = some username }

  abbrev set_credential : Option (List ℕ) → RtcIceServer Js → RtcIceServer Js
  set_credential none r = r
  set_credential (some credential) r = record r { rtc_credential = some credential }

  abbrev with_value : IceServer → Outcome Js Js → Outcome (WebRtcError Js) (RtcIceServer Js)
  with_value s (ok urls) = ok (
      set_credential s.credential (
        set_username s.username
          (record { rtc_urls = urls; rtc_username = none; rtc_credential = none })))
  with_value s (err e) = err (serde_error e)
  with_value s panic = panic

  -- `TryFrom<IceServer> for RtcIceServer`.
  unfoldable pub to_rtc_server : IceServer → Outcome (WebRtcError Js) (RtcIceServer Js)
  to_rtc_server s = with_value s (codec.to_value s.urls)

  abbrev configuration :
      Outcome (WebRtcError Js) (RtcIceServer Js) → Outcome (WebRtcError Js) (List (RtcIceServer Js))
  configuration (ok r) = ok (r ∷ [])
  configuration (err e) = err e
  configuration panic = panic

  -- `TryFrom<IceServer> for RtcConfiguration`: the list of its servers.
  unfoldable pub to_configuration : IceServer → Outcome (WebRtcError Js) (List (RtcIceServer Js))
  unfolding to_rtc_server
  to_configuration s = configuration (to_rtc_server s)

  with_value-set :
      (s : IceServer) (v : Js)
      → with_value s (ok v)
        ≡ ok (record { rtc_urls = v; rtc_username = s.username; rtc_credential = s.credential })
  with_value-set s v = ground arith

  -- A server whose addresses the codec can write and read back comes back unchanged.
  pub server_round_trip :
      (s : IceServer) (v : Js)
      → codec.to_value s.urls ≡ ok v
      → codec.from_value v ≡ ok s.urls
      → (r : RtcIceServer Js) × (to_rtc_server s ≡ ok r) × (from_rtc_server r ≡ ok s)
  unfolding to_rtc_server from_rtc_server
  server_round_trip s v written read_back = (
    record { rtc_urls = v; rtc_username = s.username; rtc_credential = s.credential },
    rw written (with_value-set s v),
    rw read_back refl,
  )
