-- ===== src/Output/Mixing.antt =====
-- The two threads write to `std::cout` without a lock: what one `<<` inserts stays together, but the
-- lines of the threads may be mixed.
use desert_addon_uwapp_net.Common.{
  ℕ, ◌≡◌, refl, sym, ap, ◌∙◌, subst, Bool, true, false, ◌++◌, List, [], ◌∷◌, All, All-append_left,
}
use mathlib.Core.List.{append_assoc, append-nil}
use desert_addon_uwapp_net.Logging.{
  Base, dec, hex, Operand, text, set_hex, base_after, Stream, insert_all, escape, yellow,
  reset_colour, message, colour_of,
}
use desert_addon_uwapp_net.Logging.Sticky.{
  IsSteady, IsSteady-append, all_printed, extended, insert_all-once,
}
use desert_addon_uwapp_net.Listener.Log.{wrong_magic}
use desert_addon_uwapp_net.Output.{
  Stamp, Output, listener_line, log_operands, level_of, wrong_magic_head, wrong_magic_tail,
}
use desert_addon_uwapp_net.Output.Numbers.{
  tells_magic, is_plain-IsSteady, all_operands, all_operands-append, all_operands-IsSteady,
}

-- Whose operand comes next, the first thread's or the second's? Without an answer the rest of both
-- follows.
unfoldable pub mix : List Bool → List Operand → List Operand → List Operand
mix [] xs ys = xs ++ ys
mix (true ∷ cs) [] ys = ys
mix (true ∷ cs) (x ∷ xs) ys = x ∷ mix cs xs ys
mix (false ∷ cs) xs [] = xs
mix (false ∷ cs) xs (y ∷ ys) = y ∷ mix cs xs ys

mix-IsSteady :
    (b : Base) (cs : List Bool) (xs ys : List Operand)
    → IsSteady b xs
    → IsSteady b ys
    → IsSteady b (mix cs xs ys)
unfolding mix
mix-IsSteady b [] xs ys h k = IsSteady-append b xs ys h k
mix-IsSteady b (true ∷ cs) [] ys h k = k
mix-IsSteady b (true ∷ cs) (x ∷ xs) ys h k = (h.0, mix-IsSteady b cs xs ys h.1 k)
mix-IsSteady b (false ∷ cs) xs [] h k = h
mix-IsSteady b (false ∷ cs) xs (y ∷ ys) h k = (k.0, mix-IsSteady b cs xs ys h k.1)

-- What stands before an operand of the second thread, and what behind it.
record Parts (cs : List Bool) (xs p : List Operand) (o : Operand) (q : List Operand) : Type 0 where
  first_order : List Bool
  next_order : List Bool
  first_part : List Operand
  next_part : List Operand
  parted : xs ≡ first_part ++ next_part
  mixed : mix cs xs (p ++ o ∷ q) ≡ mix first_order first_part p ++ o ∷ mix next_order next_part q

mix-Parts :
    (cs : List Bool) (xs p : List Operand) (o : Operand) (q : List Operand) → Parts cs xs p o q
unfolding mix
mix-Parts [] xs p o q = record {
  first_order = [];
  next_order = [];
  first_part = xs;
  next_part = [];
  parted = sym (append-nil xs);
  mixed = sym (append_assoc xs p (o ∷ q));
}
mix-Parts (true ∷ cs) [] p o q = record {
  first_order = [];
  next_order = [];
  first_part = [];
  next_part = [];
  parted = refl;
  mixed = refl;
}
mix-Parts (true ∷ cs) (x ∷ xs) p o q =
    let r = mix-Parts cs xs p o q in
    record {
      first_order = true ∷ r.first_order;
      next_order = r.next_order;
      first_part = x ∷ r.first_part;
      next_part = r.next_part;
      parted = ap (λ t. x ∷ t) r.parted;
      mixed = ap (λ t. x ∷ t) r.mixed;
    }
mix-Parts (false ∷ cs) xs [] o q = record {
  first_order = [];
  next_order = cs;
  first_part = [];
  next_part = xs;
  parted = refl;
  mixed = refl;
}
mix-Parts (false ∷ cs) xs (y ∷ p) o q =
    let r = mix-Parts cs xs p o q in
    record {
      first_order = false ∷ r.first_order;
      next_order = r.next_order;
      first_part = r.first_part;
      next_part = r.next_part;
      parted = r.parted;
      mixed = ap (λ t. y ∷ t) r.mixed;
    }

-- The operands of the simulator's thread are in two parts, and those of the listening thread too, at
-- the `std::hex` of the line on a wrong begin tag; the first parts are mixed and then the others, and
-- the numbers are decimal in the first and hexadecimal in the others.
pub record Switches (node : ℕ) (ms before : List (Stamp × Output)) (t : Stamp) (magic : ℕ)
    (after : List (Stamp × Output)) (mixed : List Operand) (s : Stream) : Type 0 where
  pub first_order : List Bool
  pub next_order : List Bool
  pub first_part : List Operand
  pub next_part : List Operand
  pub parted : all_operands node ms ≡ first_part ++ next_part
  pub shown :
      insert_all s mixed
      ≡ extended hex s (
          all_printed dec (
            mix first_order first_part
              (all_operands node before ++ text (escape yellow) ∷ wrong_magic_head node t))
          ++ all_printed hex (
              mix next_order next_part (
                wrong_magic_tail magic
                ++ text reset_colour ∷ text (b'\n' ∷ []) ∷ all_operands node after)))

-- Let the operands of the two threads come to the console in any order between the threads, each
-- thread's in its own order, beginning with decimal numbers; the simulator's thread writes no line on
-- a wrong begin tag, and the listening thread writes a first one. Then the operands before and behind
-- its `std::hex` are those before and behind it in the listening thread, mixed with a first part and
-- with the rest of what the simulator's thread writes; all numbers before it are decimal, and all
-- behind it, of both threads and in the middle of lines, are hexadecimal.
pub mix-Switches :
    (node : ℕ) (cs : List Bool) (ms before : List (Stamp × Output)) (t : Stamp) (magic : ℕ)
    (after : List (Stamp × Output)) (s : Stream)
    → s.base ≡ dec
    → All (λ o. tells_magic o.1 ≡ false) ms
    → All (λ o. tells_magic o.1 ≡ false) before
    → Switches node ms before t magic after
        (mix cs
          (all_operands node ms)
          (all_operands node (before ++ (t, listener_line (wrong_magic magic)) ∷ after)))
        s
unfolding message log_operands base_after colour_of level_of
mix-Switches node cs ms before t magic after s e hm hb =
    let line : Stamp × Output = (t, listener_line (wrong_magic magic)) in
    let xs = all_operands node before ++ text (escape yellow) ∷ wrong_magic_head node t in
    let ys =
      wrong_magic_tail magic ++ text reset_colour ∷ text (b'\n' ∷ []) ∷ all_operands node after in
    let steady : IsSteady dec xs =
      IsSteady-append dec (all_operands node before) _ (all_operands-IsSteady node before hb)
        (is_plain-IsSteady (text (escape yellow) ∷ wrong_magic_head node t) refl) in
    let r = mix-Parts cs (all_operands node ms) xs set_hex ys in
    let first : IsSteady dec r.first_part =
      All-append_left (λ o. base_after dec o ≡ dec) r.first_part r.next_part
        (subst (IsSteady dec) r.parted (all_operands-IsSteady node ms hm)) in
    let whole : all_operands node (before ++ line ∷ after) ≡ xs ++ set_hex ∷ ys =
      all_operands-append node before (line ∷ after)
      ∙ sym (
          append_assoc (all_operands node before) (text (escape yellow) ∷ wrong_magic_head node t)
            (set_hex ∷ ys)) in
    record {
      first_order = r.first_order;
      next_order = r.next_order;
      first_part = r.first_part;
      next_part = r.next_part;
      parted = r.parted;
      shown =
          ap (λ z. insert_all s (mix cs (all_operands node ms) z)) whole
          ∙ ap (insert_all s) r.mixed
          ∙ insert_all-once (mix r.first_order r.first_part xs) (mix r.next_order r.next_part ys) s
              e (mix-IsSteady dec r.first_order r.first_part xs first steady);
    }
