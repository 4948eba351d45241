-- ===== src/Wasm/Peers.antt =====
-- sf-wasm/src/peer.rs as the client of client.rs uses it: the state of each peer stands in a table,
-- and a method of a peer is run on its own entry.
use sf_rs.Prelude.{ℕ, List, [], ◌≡◌, Option, none, some, Outcome, ok, err, panic, map_err, arith}
use sf_rs.Prelude.Action.{Action}
use sf_rs.Prelude.Maps.{MapOps}
use sf_rs.PeerId.Base.{PeerId}
use sf_rs.Protocol.{PeerRequest}
use sf_rs.Webrtc.Servers.{UrlCodec}
use sf_rs.Webrtc.Channel.{ChannelApi}
use sf_rs.Webrtc.Connection.{ConnectionApi, new_default}
use sf_rs.Wasm.Client.{PeerOps}
use sf_rs.Wasm.Peer.{
  PeerError, web_rtc, Sender, Peer, Link, make_offer, handle_offer, handle_candidate,
  direct_send_str,
}

module _ {C D Js L : Type 0} (table : MapOps PeerId (Link C D) L) (api : ConnectionApi C D Js)
    (channels : ChannelApi D Js) (codec : UrlCodec Js) (to_string : PeerRequest → Option (List ℕ))
    (host_peer_id : PeerId) (sender : Sender) where
  abbrev updated :
      PeerId
      → L
      → Link C D × Outcome (PeerError Js) (Unit {0})
      → L × Outcome (PeerError Js) (Unit {0})
  updated pid links (link, r) = (table.insert pid link links, r)

  abbrev run_on :
      PeerId
      → Action (Link C D) (PeerError Js) (Unit {0})
      → L
      → Option (Link C D)
      → L × Outcome (PeerError Js) (Unit {0})
  run_on pid method links none = (links, panic)
  run_on pid method links (some link) = updated pid links (method link)

  -- A method of a peer, on its entry.
  unfoldable pub on_link :
      Peer → Action (Link C D) (PeerError Js) (Unit {0}) → Action L (PeerError Js) (Unit {0})
  on_link peer method links = run_on peer.id method links (table.get peer.id links)

  abbrev pub fresh_link : C → Link C D
  fresh_link pc = record {
    pc = pc;
    connection_counters = record { offer_count = 0; answer_count = 0; ice_candidate_count = 0 };
    channel_counters = record { message_count = 0; message_bytes = 0 };
    dc = none;
    attached = [];
    sender = sender;
    outbox = [];
  }

  abbrev made : PeerId → L → Outcome (PeerError Js) C → L × Outcome (PeerError Js) Peer
  made pid links (ok pc) = (
    table.insert pid (fresh_link pc) links,
    ok (record { id = pid; host_peer_id = host_peer_id }),
  )
  made pid links (err e) = (links, err e)
  made pid links panic = (links, panic)

  -- `Peer::new`; the tasks that `init_callbacks` starts are run by what comes over their streams.
  unfoldable pub new_peer : PeerId → Action L (PeerError Js) Peer
  new_peer pid links = made pid links (map_err web_rtc (new_default api codec))

  abbrev pub peers : PeerOps Peer (PeerError Js) L
  peers = record {
    id = λ p. p.id;
    make = new_peer;
    make_offer = λ p. on_link p (make_offer api to_string p);
    handle_offer = λ p description. on_link p (handle_offer api to_string p description);
    handle_candidate = λ p candidate. on_link p (handle_candidate api to_string p candidate);
    direct_send_str = λ p text. on_link p (direct_send_str api to_string channels text);
  }

  -- A peer that is made has the identifier that was asked for.
  pub new_peer-id :
      (pid : PeerId) (links : L) (p : Peer) → (new_peer pid links).1 ≡ ok p → p.id ≡ pid
  unfolding new_peer
  new_peer-id pid links p e = of_result (map_err web_rtc (new_default api codec)) e
    where
      of_result : (r : Outcome (PeerError Js) C) → (made pid links r).1 ≡ ok p → p.id ≡ pid
      of_result (ok pc) e = ground (arith, e)
      of_result (err x) e = cc
      of_result panic e = cc
