-- ===== src/Output/Numbers.antt =====
-- In which base the numbers on the console are.
use desert_addon_uwapp_net.Common.{
  ℕ, ◌≡◌, refl, sym, ap, ◌∙◌, Bool, true, false, ◌++◌, List, [], ◌∷◌, All,
}
use mathlib.Core.List.{append_assoc}
use desert_addon_uwapp_net.Logging.{
  dec, hex, Operand, text, signed, unsigned, set_hex, base_after, Stream, insert_all, escape,
  yellow, reset_colour, message, log_at, log_msg, colour_of,
}
use desert_addon_uwapp_net.Logging.Sticky.{
  IsSteady, IsSteady-append, all_printed, extended, insert_all-append, insert_all-once,
}
use desert_addon_uwapp_net.Listener.Log.{LogLine, wrong_magic}
use desert_addon_uwapp_net.Console.{Line, recv_packet_using_tcp}
use desert_addon_uwapp_net.Output.{
  Stamp, Output, module_line, listener_line, line_operands, log_operands, operands, level_of,
  print_line, print_all, wrong_magic_head, wrong_magic_tail,
}

-- Is this the line on a wrong begin tag?
abbrev pub tells_magic : Output → Bool
tells_magic (listener_line (wrong_magic magic)) = true
tells_magic _ = false

abbrev is_plain : List Operand → Bool
is_plain [] = true
is_plain (text t ∷ os) = is_plain os
is_plain (signed n ∷ os) = is_plain os
is_plain (unsigned n ∷ os) = is_plain os
is_plain (set_hex ∷ os) = false

pub is_plain-IsSteady : (os : List Operand) → is_plain os ≡ true → IsSteady dec os
unfolding base_after
is_plain-IsSteady [] h = tt
is_plain-IsSteady (text t ∷ os) h = (refl, is_plain-IsSteady os h)
is_plain-IsSteady (signed n ∷ os) h = (refl, is_plain-IsSteady os h)
is_plain-IsSteady (unsigned n ∷ os) h = (refl, is_plain-IsSteady os h)
is_plain-IsSteady (set_hex ∷ os) h = cc

line_operands-plain :
    (node : ℕ) (t : Stamp) (line : Line) → is_plain (line_operands node t line) ≡ true
unfolding line_operands
line_operands-plain node t recv_packet_using_tcp = refl
line_operands-plain node t _ = refl

log_operands-plain :
    (node : ℕ) (t : Stamp) (line : LogLine)
    → tells_magic (listener_line line) ≡ false
    → is_plain (log_operands node t line) ≡ true
unfolding log_operands
log_operands-plain node t (wrong_magic magic) h = cc
log_operands-plain node t _ h = refl

operands-IsSteady :
    (node : ℕ) (t : Stamp) (o : Output)
    → tells_magic o ≡ false
    → IsSteady dec (operands node (t, o))
unfolding message base_after
operands-IsSteady node t (module_line line) h =
    is_plain-IsSteady (line_operands node t line) (line_operands-plain node t line)
operands-IsSteady node t (listener_line line) h = (
  refl,
  IsSteady-append dec (log_operands node t line) _
      (is_plain-IsSteady (log_operands node t line) (log_operands-plain node t line h))
      (refl, (refl, tt)),
)

-- the operands of these lines, one after the other
abbrev pub all_operands : ℕ → List (Stamp × Output) → List Operand
all_operands node [] = []
all_operands node (o ∷ os) = operands node o ++ all_operands node os

print_line-insert_all :
    (node : ℕ) (t : Stamp) (o : Output) (s : Stream)
    → print_line node t o s ≡ insert_all s (operands node (t, o))
unfolding print_line log_at log_msg
print_line-insert_all node t (module_line line) s = refl
print_line-insert_all node t (listener_line line) s = refl

print_all-insert_all :
    (node : ℕ) (os : List (Stamp × Output)) (s : Stream)
    → print_all node os s ≡ insert_all s (all_operands node os)
unfolding print_all insert_all
print_all-insert_all node [] s = refl
print_all-insert_all node ((t, o) ∷ os) s =
    print_all-insert_all node os (print_line node t o s)
    ∙ ap (λ r. insert_all r (all_operands node os)) (print_line-insert_all node t o s)
    ∙ sym (insert_all-append (operands node (t, o)) (all_operands node os) s)

pub all_operands-append :
    (node : ℕ) (xs ys : List (Stamp × Output))
    → all_operands node (xs ++ ys) ≡ all_operands node xs ++ all_operands node ys
all_operands-append node [] ys = refl
all_operands-append node (x ∷ xs) ys =
    ap (λ t. operands node x ++ t) (all_operands-append node xs ys)
    ∙ sym (append_assoc (operands node x) (all_operands node xs) (all_operands node ys))

pub all_operands-IsSteady :
    (node : ℕ) (os : List (Stamp × Output))
    → All (λ o. tells_magic o.1 ≡ false) os
    → IsSteady dec (all_operands node os)
all_operands-IsSteady node [] h = tt
all_operands-IsSteady node ((t, o) ∷ os) h =
    IsSteady-append dec (operands node (t, o)) (all_operands node os)
      (operands-IsSteady node t o h.0) (all_operands-IsSteady node os h.1)

-- Whatever lines the module and its listener write before and after the first line on a wrong begin
-- tag, beginning with decimal numbers: up to the tag itself all numbers are decimal, and from there on
-- all numbers of all lines, of both threads, are hexadecimal.
print_all-wrong_magic :
    (node : ℕ) (before : List (Stamp × Output)) (t : Stamp) (magic : ℕ)
    (after : List (Stamp × Output)) (s : Stream)
    → s.base ≡ dec
    → All (λ o. tells_magic o.1 ≡ false) before
    → print_all node (before ++ (t, listener_line (wrong_magic magic)) ∷ after) s
      ≡ extended hex s (
          all_printed dec
            (all_operands node before ++ text (escape yellow) ∷ wrong_magic_head node t)
          ++ all_printed hex (
              wrong_magic_tail magic
              ++ text reset_colour ∷ text (b'\n' ∷ []) ∷ all_operands node after))
unfolding message log_operands base_after colour_of level_of
print_all-wrong_magic node before t magic after s e h =
    let line : Stamp × Output = (t, listener_line (wrong_magic magic)) in
    let xs = all_operands node before ++ text (escape yellow) ∷ wrong_magic_head node t in
    let ys =
      wrong_magic_tail magic ++ text reset_colour ∷ text (b'\n' ∷ []) ∷ all_operands node after in
    let steady : IsSteady dec xs =
      IsSteady-append dec (all_operands node before) _ (all_operands-IsSteady node before h)
        (is_plain-IsSteady (text (escape yellow) ∷ wrong_magic_head node t) refl) in
    print_all-insert_all node (before ++ line ∷ after) s
    ∙ ap (insert_all s) (
        all_operands-append node before (line ∷ after)
        ∙ sym (
            append_assoc (all_operands node before) (text (escape yellow) ∷ wrong_magic_head node t)
              (set_hex ∷ ys)))
    ∙ insert_all-once xs ys s e steady
