-- ===== src/Tests/Cutting.antt =====
-- A connection that takes at most five bytes of a `write`.
use desert_addon_uwapp_net.Common.{
  ℕ, zero, suc, ◌≤◌, ◌≡◌, refl, ap, Bool, some, List, [], ◌∷◌, ◌++◌, arith, length, take,
  length-take,
}
use mathlib.Core.Option.{some-injective}
use desert_addon_uwapp_net.Kernel.{Kernel}
use desert_addon_uwapp_net.Listener.Wire.{frame}
use desert_addon_uwapp_net.Listener.Send.{send_data}
use desert_addon_uwapp_net.Listener.Send.Partial.{Outlet, Wrote, send_data-Wrote}
use desert_addon_uwapp_net.Tests.Fixtures.{one_pipe, Pipe, serving}

abbrev narrow_pipe : Kernel
narrow_pipe = record one_pipe {
  write = λ fd bs s. (some (length (take 5 bs)), record s { output = s.output ++ take 5 bs });
}

narrow-count :
    (bs : List ℕ) (s : Pipe) (n : ℕ) → (narrow_pipe.write 4 bs s).0 ≡ some n → n ≤ length bs
narrow-count bs s n e = omega (arith, some-injective _ _ e, length-take 5 bs)

take-length-take : (n : ℕ) (bs : List ℕ) → take n bs ≡ take (length (take n bs)) bs
take-length-take zero bs = refl
take-length-take (suc n) [] = refl
take-length-take (suc n) (b ∷ bs) = ap (λ t. b ∷ t) (take-length-take n bs)

narrow-sent :
    (bs : List ℕ) (s : Pipe) → s.output ++ take 5 bs ≡ s.output ++ take (length (take 5 bs)) bs
narrow-sent bs s = ap (λ t. s.output ++ t) (take-length-take 5 bs)

abbrev narrow_outlet : Outlet narrow_pipe 4
narrow_outlet = record {
  sent = λ s. s.output;
  write_count = narrow-count;
  write_sent = narrow-sent;
}

abbrev untouched : Pipe
untouched = record { input = []; output = [] }

abbrev long_greeting : List ℕ
long_greeting = b'g' ∷ b'o' ∷ b'o' ∷ b'd' ∷ b'd' ∷ b'a' ∷ b'y' ∷ []

-- The tag and the size are written, and five of the seven bytes.
send_data-Wrote_example :
    (ok : Bool) × (s' : Pipe) × (send_data narrow_pipe long_greeting 7 serving untouched
      ≡ some (ok, s'))
    × Wrote narrow_pipe narrow_outlet (frame long_greeting) untouched ok s'
send_data-Wrote_example =
    send_data-Wrote narrow_pipe narrow_outlet serving long_greeting 7 untouched refl (omega arith)
      (omega arith) (omega arith) (omega arith)
