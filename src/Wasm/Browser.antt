-- ===== src/Wasm/Browser.antt =====
-- A browser for the tests of sf-wasm: a connection is the state of its signaling and its remote
-- description, and follows the rules of WebRTC. A description is the number 0, an offer, or 1, an
-- answer; an error is 2.
use sf_rs.Prelude.{
  ◌≡◌, Bool, true, false, bytes_eq, bytes_eq_refl, ℕ, List, refl, Option, none, some, Outcome, ok,
  err, codes, if◌then◌else◌, ◌==◌,
}
use sf_rs.Webrtc.Errors.{opened}
use sf_rs.Webrtc.Sdp.{
  SdpType, offer, answer, RtcSdpType, rtc_offer, rtc_answer, RtcSessionDescription,
  to_rtc_description, to_rtc, to_string,
}
use sf_rs.Webrtc.Channel.{ChannelApi}
use sf_rs.Webrtc.Connection.{ConnectionApi, state_new}
use sf_rs.Webrtc.Signaling.{
  SignalingState, stable, have_local_offer, have_remote_offer, described, Signaling,
  AnswersOnlyOffers, SignalingLaws,
}

pub record Conn : Type 0 where
  pub state : SignalingState
  pub remote : Option RtcSessionDescription
  pub current_local : Option RtcSessionDescription
  pub made : Option RtcSessionDescription

abbrev at_rest : SignalingState → ℕ → Outcome ℕ ℕ
at_rest stable v = ok v
at_rest _ v = err 2

abbrev with_offer : SignalingState → ℕ → Outcome ℕ ℕ
with_offer have_remote_offer v = ok v
with_offer _ v = err 2

abbrev local_next : RtcSdpType → SignalingState → Option SignalingState
local_next rtc_offer stable = some have_local_offer
local_next rtc_answer have_remote_offer = some stable
local_next _ _ = none

abbrev remote_next : RtcSdpType → SignalingState → Option SignalingState
remote_next rtc_offer stable = some have_remote_offer
remote_next rtc_answer have_local_offer = some stable
remote_next _ _ = none

-- A local description has to be the one that was made last.
abbrev as_made : Conn → RtcSessionDescription → Option RtcSessionDescription → Bool
as_made c d none = false
as_made c d (some m) = bytes_eq d.rtc_sdp m.rtc_sdp

abbrev set_local :
    RtcSessionDescription → Conn → Bool → Option SignalingState → Conn × Outcome ℕ (Unit {0})
set_local d c true (some next) = (record c { state = next; current_local = some d }, ok tt)
set_local d c _ _ = (c, err 2)

abbrev set_remote :
    RtcSessionDescription → Conn → Option SignalingState → Conn × Outcome ℕ (Unit {0})
set_remote d c none = (c, err 2)
set_remote d c (some next) = (record c { state = next; remote = some d }, ok tt)

abbrev fields_of : ℕ → Outcome ℕ (List ℕ × List ℕ)
fields_of v =
    if v == 0
    then ok (codes "v=0", codes "offer")
    else if v == 1
    then ok (codes "v=0", codes "answer")
    else err 2

abbrev pub browser : ConnectionApi Conn ℕ ℕ
browser = record {
  new_with_configuration =
      λ servers. ok (record { state = stable; remote = none; current_local = none; made = none });
  create_offer =
      λ options c. (record c { made = some (described offer (codes "v=0")) }, at_rest c.state 0);
  create_answer = λ options c.
      (record c { made = some (described answer (codes "v=0")) }, with_offer c.state 1);
  set_remote_description = λ d c. set_remote d c (remote_next d.rtc_type c.state);
  set_local_description = λ d c. set_local d c (as_made c d c.made) (local_next d.rtc_type c.state);
  create_data_channel = λ label init c. (c, 7);
  remote_description = λ c. c.remote;
  add_ice_candidate = λ candidate c. (c, ok tt);
  new_candidate = λ candidate. ok candidate;
  connection_state = λ c. state_new;
  deserialize = fields_of;
}

-- Any text is taken for an offer, and any for an answer.
abbrev pub signaling : Signaling Conn
signaling = record {
  state_of = λ c. c.state;
  local_description = λ c. c.current_local;
  last_created = λ c. c.made;
  Offer = λ sdp. Unit {0};
  Answer = λ offered reply. Unit {0};
}

abbrev pub channels : ChannelApi ℕ ℕ
channels = record {
  label = λ d. codes "sf-channel";
  ready_state = λ d. opened;
  send = λ payload d. (d, ok tt);
  close = λ d. d;
}

as_made_same :
    (c : Conn) (type : SdpType) (sdp : List ℕ)
    → as_made c (described type sdp) (some (described type sdp)) ≡ true
unfolding to_rtc_description
as_made_same c type sdp = bytes_eq_refl sdp

pub browser-AnswersOnlyOffers : AnswersOnlyOffers browser signaling
unfolding AnswersOnlyOffers
browser-AnswersOnlyOffers remote c a =
    (2, rw a.in_state refl, record { in_state = a.in_state; has_remote = a.has_remote })

pub browser-SignalingLaws : SignalingLaws browser signaling
unfolding to_rtc_description to_rtc to_string
browser-SignalingLaws = record {
  channel_stays = λ label init a. a;
  offers = λ a. record {
    value = 0;
    sdp = codes "v=0";
    resolved = rw a.in_state refl;
    fields = refl;
    fits = tt;
    last = refl;
    stays = record { in_state = a.in_state; has_remote = a.has_remote };
  };
  answers = λ sdp a. record {
    value = 1;
    sdp = codes "v=0";
    resolved = rw a.in_state refl;
    fields = refl;
    fits = tt;
    last = refl;
    stays = record { in_state = a.in_state; has_remote = a.has_remote };
  };
  local_offer = λ {remote} {c} sdp a last.
      let same = as_made_same c offer sdp in
      (
        record {
          fulfilled = rw (last, same, a.in_state) refl;
          moved = record {
            in_state = rw (last, same, a.in_state) refl;
            has_remote = rw (last, same, a.in_state) a.has_remote;
          };
        },
        rw (last, same, a.in_state) refl,
      );
  local_answer = λ {remote} {c} sdp a last.
      let same = as_made_same c answer sdp in
      record {
        fulfilled = rw (last, same, a.in_state) refl;
        moved = record {
          in_state = rw (last, same, a.in_state) refl;
          has_remote = rw (last, same, a.in_state) a.has_remote;
        };
      };
  remote_offer = λ sdp a proper. record {
    fulfilled = rw a.in_state refl;
    moved = record { in_state = rw a.in_state refl; has_remote = rw a.in_state refl };
  };
  remote_answer = λ sdp reply a local fits. record {
    fulfilled = rw a.in_state refl;
    moved = record { in_state = rw a.in_state refl; has_remote = rw a.in_state refl };
  };
}
