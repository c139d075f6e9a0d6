-- ===== src/NodeAgent/Streamer/Client.antt =====
-- The thread of the telemetry streamer: `_stream_loop`, `start` and `stop` as steps of a state machine.
-- gRPC's own thread, which takes the messages from the generator, is taken to keep step with it: a
-- stream that ends has ended its generator.
use distributed_ai_networkin.Prelude.{
  ℕ, ◌+◌, ◌≡◌, refl, Bool, true, false, some, List, [], ◌∷◌, ◌++◌, arith, if◌then◌else◌,
}
use distributed_ai_networkin.Security.Algorithms.{PqcConfig}
use distributed_ai_networkin.Contracts.Models.{NodeTelemetrySnapshot}
use distributed_ai_networkin.NodeAgent.Streamer.{
  snapshot_at, message_hash, init, sign_telemetry, send, Sample, StreamerLibraries,
  TelemetryStreamer,
}
use distributed_ai_networkin.Prelude.Int.{pos}
use distributed_ai_networkin.Interfaces.{Bytes, SigningLaws}
use distributed_ai_networkin.Contracts.Messages.{SignedTelemetryEnvelope}
use distributed_ai_networkin.Prelude.Floats.{Floats}

-- Where the thread is: none was started, at the test of the loop, past it and before the stream, at
-- the test of the generator, past that test, or returned.
pub data Phase : Type 0 where
  unstarted testing connecting streaming yielding returned : Phase

pub record Client (F K : Type 0) : Type 0 where
  pub phase : Phase
  pub stop_event : Bool
  pub streamer : TelemetryStreamer K
  -- the messages that the generator has yielded, in order
  pub sent : List (SignedTelemetryEnvelope F)

-- self._thread.is_alive()
abbrev pub is_alive : Phase → Bool
is_alive unstarted = false
is_alive testing = true
is_alive connecting = true
is_alive streaming = true
is_alive yielding = true
is_alive returned = false

module _ {F K : Type 0} where
  -- `__init__`
  abbrev pub created : TelemetryStreamer K → Client F K
  created s = record { phase = unstarted; stop_event = false; streamer = s; sent = [] }

  unfoldable pub start : Client F K → Client F K
  start c = if is_alive c.phase then c else record c { phase = testing; stop_event = false }

  -- without the wait for the thread
  unfoldable pub stop : Client F K → Client F K
  stop c = record c { stop_event = true }

module _ {F K : Type 0} ⦃fl : Floats F⦄ (lib : StreamerLibraries F K) where
  -- the generator yields one message, of a snapshot that the node emits
  unfoldable pub yield_message : Sample F → NodeTelemetrySnapshot F → Client F K → Client F K
  yield_message sample snapshot c =
      let (env, s') = send lib sample snapshot c.streamer in
      record c { phase = streaming; streamer = s'; sent = c.sent ++ (env ∷ []) }

  -- A step of the thread.
  pub data OwnStep (c : Client F K) : Client F K → Type 0 where
    enters : c.phase ≡ testing → c.stop_event ≡ false → OwnStep c (record c { phase = connecting })
    leaves : c.phase ≡ testing → c.stop_event ≡ true → OwnStep c (record c { phase = returned })
    -- an exception ends the pass before the stream
    retries : c.phase ≡ connecting → OwnStep c (record c { phase = testing })
    -- the control plane rejects the registration
    is_rejected :
        c.phase ≡ connecting → OwnStep c (record c { phase = returned; stop_event = true })
    is_registered : c.phase ≡ connecting → OwnStep c (record c { phase = streaming })
    turns : c.phase ≡ streaming → c.stop_event ≡ false → OwnStep c (record c { phase = yielding })
    yields :
        (sample : Sample F) (snapshot : NodeTelemetrySnapshot F)
        → c.phase ≡ yielding
        → snapshot_at sample ≡ some snapshot
        → OwnStep c (yield_message sample snapshot c)
    -- the generator is at its end
    exhausted : c.phase ≡ streaming → c.stop_event ≡ true → OwnStep c (record c { phase = testing })
    -- the server or an exception ends the stream
    broken_off : c.phase ≡ streaming → OwnStep c (record c { phase = testing })
    -- the same, before the message is made, also where the snapshot raises
    cut_off : c.phase ≡ yielding → OwnStep c (record c { phase = testing })

  -- A step of the thread, or a call of another.
  pub data Step (c : Client F K) : Client F K → Type 0 where
    own : {d : Client F K} → OwnStep c d → Step c d
    starts : Step c (start c)
    stops : Step c (stop c)

  pub data Reaches (c : Client F K) : Client F K → Type 0 where
    here : Reaches c c
    further : {d e : Client F K} → Reaches c d → Step d e → Reaches c e

  -- Each message has the number after the one before and a digest chained to it, and verifies under the node's key, from number `n` and digest `prev` up to `m` and `last`.
  unfoldable pub Chained : K → ℕ → Bytes → List (SignedTelemetryEnvelope F) → ℕ → Bytes → Type 0
  Chained key n prev [] m last = (n ≡ m) × (prev ≡ last)
  Chained key n prev (e ∷ es) m last =
      (e.sequence_number ≡ pos (n + 1))
      × (e.previous_message_hash ≡ message_hash lib prev e.payload_json (n + 1) e.nonce)
      × (lib.signing.verify (lib.signing.public_pem key) e.signature e.payload_json ≡ true)
      × Chained key (n + 1) e.previous_message_hash es m last

  Chained-append :
      (key : K) (n m : ℕ) (prev last : Bytes) (es : List (SignedTelemetryEnvelope F))
      (e : SignedTelemetryEnvelope F)
      → Chained key n prev es m last
      → Chained key m last (e ∷ []) (m + 1) e.previous_message_hash
      → Chained key n prev (es ++ (e ∷ [])) (m + 1) e.previous_message_hash
  unfolding Chained
  Chained-append key n m prev last [] e (same_n, same_last) h = rw (same_n, same_last) h
  Chained-append key n m prev last (d ∷ es) e (number, digest, signed, rest) h = (
    number,
    digest,
    signed,
    Chained-append key (n + 1) m d.previous_message_hash last es e rest h,
  )

  -- What the streamer has sent so far is a chain from number 0, with its own counter and digest at the end.
  abbrev pub IsChained : K → Client F K → Type 0
  IsChained key c =
      (c.streamer.signing_key ≡ key)
      × Chained key 0 [] c.sent c.streamer.sequence_number c.streamer.previous_hash

  module _ (signing_laws : SigningLaws lib.signing) where
    yield_message-IsChained :
        (key : K) (sample : Sample F) (snapshot : NodeTelemetrySnapshot F) (c : Client F K)
        → IsChained key c
        → IsChained key (yield_message sample snapshot c)
    unfolding yield_message send sign_telemetry Chained
    yield_message-IsChained key sample snapshot c (mine, h) =
        let s = c.streamer in
        let env = (send lib sample snapshot s).0 in
        (
          mine,
          Chained-append key 0 s.sequence_number [] s.previous_hash c.sent env h
              (refl, refl, rw mine (signing_laws.verify-sign key env.payload_json), (refl, refl)),
        )

    OwnStep-IsChained :
        (key : K) {c d : Client F K} → OwnStep c d → IsChained key c → IsChained key d
    OwnStep-IsChained key (enters p q) h = h
    OwnStep-IsChained key (leaves p q) h = h
    OwnStep-IsChained key (retries p) h = h
    OwnStep-IsChained key (is_rejected p) h = h
    OwnStep-IsChained key (is_registered p) h = h
    OwnStep-IsChained key (turns p q) h = h
    OwnStep-IsChained key (yields sample snapshot p q) h =
        yield_message-IsChained key sample snapshot _ h
    OwnStep-IsChained key (exhausted p q) h = h
    OwnStep-IsChained key (broken_off p) h = h
    OwnStep-IsChained key (cut_off p) h = h

    Step-IsChained : (key : K) {c d : Client F K} → Step c d → IsChained key c → IsChained key d
    unfolding start stop
    Step-IsChained key (own s) h = OwnStep-IsChained key s h
    Step-IsChained key starts h = ground arith
    Step-IsChained key stops h = h

    -- Whatever starts, stops, rejections and reconnections a streamer has gone through, the messages that it has sent are numbered from 1 without a gap or a repetition, each is chained to the one before by its digest, and each verifies under the node's key.
    pub Reaches-IsChained :
        (key : K) (use_tls : Bool) (config : PqcConfig) (has_pq_signer : Bool) {c : Client F K}
        → Reaches (created (init use_tls key config has_pq_signer)) c
        → IsChained key c
    unfolding init Chained
    Reaches-IsChained key use_tls config has_pq_signer here = (refl, (refl, refl))
    Reaches-IsChained key use_tls config has_pq_signer (further r s) =
        Step-IsChained key s (Reaches-IsChained key use_tls config has_pq_signer r)
