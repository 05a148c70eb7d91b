-- ===== src/Associate.antt =====
-- client/src/local.rs: the sessions of UDP ASSOCIATE, one QUIC stream for each source. Sources and
-- instants (in milliseconds) are numbers; a channel is named by its source and the session's id.
pub mod Ordered
pub mod SingleOpen
use native.Mathlib.Decide.{ℕ_discrete}
use juicity_rs.Base.{
  ℕ, ◌+◌, ◌-◌, ◌≡◌, List, [], ◌∷◌, ◌++◌, Option, none, some, Bool, true, false, not, ◌&&◌, map,
  length, contains, leb, ltb, if◌then◌else◌, ◌==◌, find, put, del, retain,
}
use juicity_rs.Socks.{UdpOutboundDatagram}

-- The capacity of a session's channel.
abbrev pub queue_capacity : ℕ
queue_capacity = 256

abbrev pub client_udp_session_idle_timeout : ℕ
client_udp_session_idle_timeout = 180_000

pub record UdpSessionEntry : Type 0 where
  pub id : ℕ
  pub last_used_epoch_ms : ℕ

-- The QUIC stream of a session: the datagrams written on it, those in its channel, and whether its
-- receiver is still there.
pub record Stream : Type 0 where
  pub source : ℕ
  pub id : ℕ
  pub written : List UdpOutboundDatagram
  pub queue : List UdpOutboundDatagram
  pub is_open : Bool

-- A task of `spawn_udp_assoc_session` with its first datagram: before the end of
-- `open_udp_stream`, or before the drop of its guard.
pub record Opener : Type 0 where
  pub source : ℕ
  pub id : ℕ
  pub first : UdpOutboundDatagram
  pub connecting : Bool

-- `received` is what the forwarder took from its socket, with the source.
pub record Associate : Type 0 where
  pub sessions : List (ℕ × UdpSessionEntry)
  pub opening : List ℕ
  pub session_seq : ℕ
  pub openers : List Opener
  pub streams : List Stream
  pub received : List (ℕ × UdpOutboundDatagram)

-- `remove_session_if_match`
unfoldable pub remove_session_if_match : ℕ → ℕ → Associate → Associate
remove_session_if_match source id s = elim (find ℕ_discrete source s.sessions) [
  | some existing ↦
      if existing.id == id then record s { sessions = del ℕ_discrete source s.sessions } else s
  | none ↦ s
]

-- `spawn_udp_assoc_session`
unfoldable pub spawn_udp_assoc_session : ℕ → UdpOutboundDatagram → Associate → Associate
spawn_udp_assoc_session source first_datagram s =
    if contains source s.opening then s else record s {
      opening = source ∷ s.opening;
      session_seq = s.session_seq + 1;
      openers =
          (record {
            source = source;
            id = s.session_seq;
            first = first_datagram;
            connecting = true;
          })
          ∷ s.openers;
    }

unfoldable pub is_channel : ℕ → ℕ → Stream → Bool
is_channel source id st = st.source == source && st.id == id

-- Whether a channel has a receiver.
unfoldable pub is_live : ℕ → ℕ → List Stream → Bool
unfolding is_channel
is_live source id [] = false
is_live source id (st ∷ streams) =
    if is_channel source id st && st.is_open then true else is_live source id streams

-- A datagram put into the channel if there is room; a full channel drops it.
unfoldable pub enqueue : ℕ → ℕ → UdpOutboundDatagram → Stream → Stream
unfolding is_channel
enqueue source id d st =
    if is_channel source id st && ltb (length st.queue) queue_capacity
    then record st { queue = st.queue ++ (d ∷ []) }
    else st

-- The forwarder with a datagram that it parsed: `touch` and `try_send` of the source's session, or
-- a new session.
unfoldable pub forward_datagram : ℕ → ℕ → UdpOutboundDatagram → Associate → Associate
unfolding is_live enqueue remove_session_if_match spawn_udp_assoc_session
forward_datagram now source d s = elim (find ℕ_discrete source s.sessions) [
  | none ↦ spawn_udp_assoc_session source d s
  | some session ↦
      let touched = record s {
        sessions = put ℕ_discrete source (record session { last_used_epoch_ms = now }) s.sessions;
      } in
      if is_live source session.id s.streams
      then record touched { streams = map (enqueue source session.id d) s.streams }
      else spawn_udp_assoc_session source d (remove_session_if_match source session.id touched)
]

-- A round of the forwarder.
unfoldable pub receive : ℕ → ℕ → UdpOutboundDatagram → Associate → Associate
unfolding forward_datagram
receive now source d s =
    forward_datagram now source d (record s { received = s.received ++ ((source, d) ∷ []) })

-- A stream was opened: `open_udp_stream` has written the first datagram.
unfoldable pub insert_session : ℕ → Opener → Associate → Associate
insert_session now o s = record s {
  sessions = put ℕ_discrete o.source (record { id = o.id; last_used_epoch_ms = now }) s.sessions;
  streams =
      (record { source = o.source; id = o.id; written = o.first ∷ []; queue = []; is_open = true })
      ∷ s.streams;
}

-- The periodic cleanup.
unfoldable pub cleanup : ℕ → Associate → Associate
unfolding is_live
cleanup now s = record s {
  sessions =
      retain
        (λ e.
          is_live e.0 e.1.id s.streams
          && leb (now - e.1.last_used_epoch_ms) client_udp_session_idle_timeout)
        s.sessions;
}

-- Any interleaving of the forwarder, the openers, the writers, the supervisors and the cleanup.
pub data Step (s u : Associate) : Type 0 where
  receives : (now source : ℕ) (d : UdpOutboundDatagram) → u ≡ receive now source d s → Step s u
  opens :
      (now : ℕ) (before after : List Opener) (o : Opener)
      → s.openers ≡ before ++ (o ∷ after)
      → o.connecting ≡ true
      → u ≡ record (insert_session now o s) {
        openers = before ++ ((record o { connecting = false }) ∷ after);
      }
      → Step s u
  open_fails :
      (before after : List Opener) (o : Opener)
      → s.openers ≡ before ++ (o ∷ after)
      → o.connecting ≡ true
      → u ≡ record s { openers = before ++ ((record o { connecting = false }) ∷ after) }
      → Step s u
  drops_guard :
      (before after : List Opener) (o : Opener)
      → s.openers ≡ before ++ (o ∷ after)
      → u ≡ record s {
        openers = before ++ after;
        opening = retain (λ a. not (a == o.source)) s.opening;
      }
      → Step s u
  writes :
      (before after : List Stream) (st : Stream) (d : UdpOutboundDatagram)
      (queue : List UdpOutboundDatagram)
      → s.streams ≡ before ++ (st ∷ after)
      → st.queue ≡ d ∷ queue
      → u ≡ record s {
        streams =
            before ++ ((record st { written = st.written ++ (d ∷ []); queue = queue }) ∷ after);
      }
      → Step s u
  ends :
      (before after : List Stream) (st : Stream)
      → s.streams ≡ before ++ (st ∷ after)
      → u ≡ record s { streams = before ++ ((record st { is_open = false }) ∷ after) }
      → Step s u
  removes : (source id : ℕ) → u ≡ remove_session_if_match source id s → Step s u
  cleans : (now : ℕ) → u ≡ cleanup now s → Step s u
  clears : u ≡ record s { sessions = [] } → Step s u

pub data Reach (s : Associate) : Associate → Type 0 where
  here : Reach s s
  next : {t u : Associate} → Reach s t → Step t u → Reach s u

abbrev pub start : Associate
start = record {
  sessions = [];
  opening = [];
  session_seq = 1;
  openers = [];
  streams = [];
  received = [];
}
