-- ===== src/Server/Spec.antt =====
-- What the registry of sf-server/src/state.rs promises, without its hash map and its tasks: who is
-- registered, and for each peer the events that are started on their way to it, in order.
use sf_rs.Prelude.{List, [], ◌∷◌, ◌++◌, ◌≡◌, true, if◌then◌else◌, Option, none, some, is_some}
use sf_rs.PeerId.Base.{PeerId, peer_eq}
use sf_rs.Protocol.{PeerEvent, new_peer}
use sf_rs.Server.Handler.{PeerHandler, id}
use sf_rs.Server.State.{is_excluded}

-- An event on its way to a peer, through the handler that was registered for it then.
pub record Mail : Type 0 where
  pub handler : PeerHandler
  pub from : PeerId
  pub event : PeerEvent

pub record Network : Type 0 where
  pub registered : PeerId → Option PeerHandler
  pub inbox : PeerId → List Mail

abbrev pub nobody : Network
nobody = record { registered = λ pid. none; inbox = λ pid. [] }

-- What `pid` is sent by an event for all peers but `exclude`.
abbrev pub told : PeerId → PeerEvent → Option PeerId → PeerId → Option PeerHandler → List Mail
told from event exclude pid none = []
told from event exclude pid (some h) =
    if is_excluded exclude pid then [] else record { handler = h; from = from; event = event } ∷ []

abbrev pub join : PeerHandler → Network → Network
join h n = record n { registered = λ pid. if peer_eq (id h) pid then some h else n.registered pid }

abbrev pub leave : PeerId → Network → Network
leave who n = record n { registered = λ pid. if peer_eq who pid then none else n.registered pid }

abbrev pub tell_all : PeerId → PeerEvent → Option PeerId → Network → Network
tell_all from event exclude n = record n {
  inbox = λ pid. n.inbox pid ++ told from event exclude pid (n.registered pid);
}

abbrev pub tell : PeerId → PeerId → PeerEvent → Network → Network
tell from to event n = record n {
  inbox = λ pid.
      n.inbox pid ++ (if peer_eq to pid then told from event none pid (n.registered pid) else []);
}

-- What is asked of the registry.
pub data Request : Type 0 where
  register_peer : PeerHandler → Request
  deregister : PeerId → Request
  hear : (from connection : PeerId) → (to : Option PeerId) → PeerEvent → Request

-- What may follow: a registration that is refused, or one that is announced to all by somebody; a
-- removal; an event for one peer, from whom its request names; an event for all, from the connection.
pub data Step : Request → Network → Network → Type 0 where
  refused :
      {n : Network} (h : PeerHandler)
      → is_some (n.registered (id h)) ≡ true
      → Step (register_peer h) n n
  joined :
      {n n' : Network} (h : PeerHandler) (from : PeerId)
      → n.registered (id h) ≡ none
      → n' ≡ tell_all from (new_peer (id h)) none (join h n)
      → Step (register_peer h) n n'
  left : {n n' : Network} (who : PeerId) → n' ≡ leave who n → Step (deregister who) n n'
  sent :
      {n n' : Network} (from connection to : PeerId) (event : PeerEvent)
      → n' ≡ tell from to event n
      → Step (hear from connection (some to) event) n n'
  sent_all :
      {n n' : Network} (from connection : PeerId) (event : PeerEvent)
      → n' ≡ tell_all connection event none n
      → Step (hear from connection none event) n n'
