-- ===== src/NodeAgent/Streamer/Stopped.antt =====
-- `stop` of the telemetry streamer: the thread comes to its end.
use distributed_ai_networkin.NodeAgent.Streamer.{snapshot_at, send, Sample, StreamerLibraries}
use distributed_ai_networkin.Prelude.{
  ℕ, ◌+◌, ◌≤◌, ◌≡◌, refl, inl, inr, true, [], ◌∷◌, arith, Option-cases, length, length-append,
}
use distributed_ai_networkin.NodeAgent.Streamer.Client.{
  cut_off, broken_off, exhausted, yields, turns, is_registered, is_rejected, returned, retries,
  yielding, leaves, enters, streaming, is_alive, connecting, OwnStep, testing, Client,
  yield_message, stop, unstarted, Phase,
}
use distributed_ai_networkin.Prelude.Floats.{Floats}

-- how many steps are left at most
abbrev rank : Phase → ℕ
rank unstarted = 0
rank testing = 1
rank connecting = 3
rank streaming = 2
rank yielding = 3
rank returned = 0

-- how many messages are still to come
abbrev pending : Phase → ℕ
pending unstarted = 0
pending testing = 0
pending connecting = 0
pending streaming = 0
pending yielding = 1
pending returned = 0

module _ {F K : Type 0} ⦃fl : Floats F⦄ (lib : StreamerLibraries F K) where
  -- The thread takes `n` steps, and no other thread calls the streamer.
  pub data OwnRun (c : Client F K) : ℕ → Client F K → Type 0 where
    rests : OwnRun c 0 c
    goes : {n : ℕ} {d e : Client F K} → OwnRun c n d → OwnStep lib d e → OwnRun c (n + 1) e

  OwnStep-rank :
      {c d : Client F K}
      → OwnStep lib c d
      → c.stop_event ≡ true
      → (d.stop_event ≡ true)
        × (rank d.phase + 1 ≤ rank c.phase)
        × (length d.sent + pending d.phase ≤ length c.sent + pending c.phase)
  unfolding yield_message
  OwnStep-rank (enters p q) h = absurd (ground (arith, q, h))
  OwnStep-rank (leaves p q) h = ground (arith, p, h)
  OwnStep-rank (retries p) h = ground (arith, p, h)
  OwnStep-rank (is_rejected p) h = ground (arith, p, h)
  OwnStep-rank (is_registered p) h = ground (arith, p, h)
  OwnStep-rank (turns p q) h = absurd (ground (arith, q, h))
  OwnStep-rank {c} (yields sample snapshot p q) h =
      let size = length-append c.sent ((send lib sample snapshot c.streamer).0 ∷ []) in
      rw p (h, omega arith, omega (arith, size))
  OwnStep-rank (exhausted p q) h = ground (arith, p, h)
  OwnStep-rank (broken_off p) h = ground (arith, p, h)
  OwnStep-rank (cut_off p) h = ground (arith, p, h)

  OwnRun-rank :
      {c : Client F K} {n : ℕ} {d : Client F K}
      → c.stop_event ≡ true
      → OwnRun c n d
      → (d.stop_event ≡ true)
        × (n + rank d.phase ≤ rank c.phase)
        × (length d.sent + pending d.phase ≤ length c.sent + pending c.phase)
  OwnRun-rank h rests = (h, omega arith, omega arith)
  OwnRun-rank h (goes r s) =
      let (stopped, low, count) = OwnRun-rank h r in
      let (stopped', low', count') = OwnStep-rank s stopped in
      (stopped', omega (arith, low, low'), omega (arith, count, count'))

  has_step :
      (sample : Sample F) (c : Client F K)
      → c.stop_event ≡ true
      → (p : Phase) → c.phase ≡ p
      → is_alive p ≡ true
      → (e : Client F K) × OwnStep lib c e
  has_step sample c h unstarted e alive = ground (arith, alive)
  has_step sample c h testing e alive = (_, leaves e h)
  has_step sample c h connecting e alive = (_, retries e)
  has_step sample c h streaming e alive = (_, exhausted e h)
  has_step sample c h yielding e alive = elim (Option-cases (snapshot_at sample)) [
    | inl raises ↦ (_, cut_off e)
    | inr (snapshot, emitted) ↦ (_, yields sample snapshot e emitted)
  ]
  has_step sample c h returned e alive = ground (arith, alive)

  rank-le : (p : Phase) → (rank p ≤ 3) × (pending p ≤ 1)
  rank-le unstarted = omega arith
  rank-le testing = omega arith
  rank-le connecting = omega arith
  rank-le streaming = omega arith
  rank-le yielding = omega arith
  rank-le returned = omega arith

  -- After `stop`, and until the next `start`, the thread takes at most three steps and sends at most one message more, and as long as it is alive it has a step to take, so that it returns; the calls of the network are taken to return.
  pub stop-returns :
      (sample : Sample F) (c : Client F K) {n : ℕ} {d : Client F K}
      → OwnRun (stop c) n d
      → (n ≤ 3)
        × (length d.sent ≤ length c.sent + 1)
        × (is_alive d.phase ≡ true → (e : Client F K) × OwnStep lib d e)
  unfolding stop
  stop-returns sample c {n} {d} r =
      let (stopped, low, count) = OwnRun-rank refl r in
      let (three, one) = rank-le c.phase in
      (
        omega (arith, low, three),
        omega (arith, count, one),
        λ alive. has_step sample d stopped d.phase refl alive,
      )
