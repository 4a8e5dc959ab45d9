-- ===== src/Node/Events/Ledger.antt =====
-- What the counters of a module say of its packets, over any sequence of events.
use desert_addon_uwapp_net.Common.{ℕ, ◌+◌, ◌≡◌, subst, some, List, [], ◌∷◌, arith, >>=-eq-some}
use mathlib.Core.Option.{some-injective}
use desert_addon_uwapp_net.Sim.{Sim}
use desert_addon_uwapp_net.Kernel.{Kernel}
use desert_addon_uwapp_net.Node.{Node}
use desert_addon_uwapp_net.Node.Events.Books.{
  Books, Agrees, recv-Books, expire_held-Books, queue_held-Books,
}
use desert_addon_uwapp_net.Node.Events.{Event, receives, expires, queues, happen, happen_all}

-- how many packets have been received
abbrev pub receptions : {Double : Type 0} → List (Event Double) → ℕ
receptions [] = 0
receptions (receives now p ∷ es) = 1 + receptions es
receptions (expires now ∷ es) = receptions es
receptions (queues size ∷ es) = receptions es

module _ (sim : Sim) (os : Kernel) where
  open sim use {Double}

  happen-Books :
      (e : Event Double) (gone r : ℕ) (w : Node sim os) {w' : Node sim os}
      → happen sim os e w ≡ some w'
      → Books sim os gone r w
      → Books sim os gone (r + receptions (e ∷ [])) w'
  unfolding happen
  happen-Books (receives now p) gone r w {w'} h a =
      subst (λ k. Books sim os gone k w') (omega arith) (recv-Books sim os now p gone r w h a)
  happen-Books (expires now) gone r w {w'} h a =
      subst (λ k. Books sim os gone k w') (omega arith)
        (subst (Books sim os gone r) (some-injective _ _ h)
          (expire_held-Books sim os now gone r w w.p_tcp_listener a))
  happen-Books (queues size) gone r w {w'} h a =
      subst (λ k. Books sim os gone k w') (omega arith)
        (queue_held-Books sim os size gone r w w.p_tcp_listener h a)

  -- Receptions, expiries of the timer and messages from the client, in any order and without a
  -- fault, keep the counters in agreement with what becomes of the packets: `txsn` is one more than
  -- the packets sent down, `pkts_push_queue` counts the packets sent down and those still queued, the
  -- received packets are counted as received, out of sequence or invalid (these modulo 2 ^ 32), and
  -- exactly as many packets have been freed or dropped as received.
  happen_all-Agrees :
      (es : List (Event Double)) (r : ℕ) (w : Node sim os) {w' : Node sim os}
      → happen_all sim os es w ≡ some w'
      → Agrees sim os r w
      → Agrees sim os (r + receptions es) w'
  unfolding happen_all
  happen_all-Agrees [] r w {w'} h a =
      subst (λ k. Agrees sim os k w') (omega arith)
        (subst (Agrees sim os r) (some-injective _ _ h) a)
  happen_all-Agrees (e ∷ es) r w {w'} h a =
      let (w₁, one, others) = >>=-eq-some (happen sim os e w) _ h in
      subst (λ k. Agrees sim os k w') (sums e es)
        (happen_all-Agrees es (r + receptions (e ∷ [])) w₁ others (happen-Books e 0 r w one a))
    where
      sums :
          (e : Event Double) (es : List (Event Double))
          → r + receptions (e ∷ []) + receptions es ≡ r + receptions (e ∷ es)
      sums (receives now p) es = omega arith
      sums (expires now) es = omega arith
      sums (queues size) es = omega arith
