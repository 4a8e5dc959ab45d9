-- ===== src/Console/Reading.antt =====
-- What a reader of the console learns from the lines of `statistics`.
use desert_addon_uwapp_net.Common.{
  ℕ, ◌+◌, ◌%◌, ◌^◌, ◌≡◌, refl, ap, sym, ◌∙◌, subst, true, some, List, [], ◌∷◌, ◌++◌, arith,
  >>=-eq-some, sub32,
}
use mathlib.Core.Path.{ap₂, subst₂}
use mathlib.Core.Option.{some-injective}
use mathlib.Core.List.{append_assoc}
use desert_addon_uwapp_net.Sim.{Sim}
use desert_addon_uwapp_net.Packet.{Packet}
use desert_addon_uwapp_net.AppNet.{AppNet}
use desert_addon_uwapp_net.AppNet.Receive.{
  DropReason, unknown_type, duplicated_packet, out_of_sequence, Verdict, accepted, dropped, count,
}
use desert_addon_uwapp_net.Listener.Handle.Queue.{content}
use desert_addon_uwapp_net.Console.{
  Line, packet_not_application_type, packet_already_processed, packet_oos, packet_lost,
  payload_received, sn_received, payload_size_received, logs_at, lost_lines, print_payload,
  text_lines, accepted_lines, drop_line, verdict_lines, recv_lines,
}

-- the numbers announced as received
abbrev sn_of_line : Line → List ℕ
sn_of_line (sn_received sn) = sn ∷ []
sn_of_line _ = []

abbrev payload_of_line : Line → List (List ℕ)
payload_of_line (payload_received bytes) = bytes ∷ []
payload_of_line _ = []

abbrev reason_of_line : Line → List DropReason
reason_of_line packet_not_application_type = unknown_type ∷ []
reason_of_line (packet_already_processed sn) = duplicated_packet ∷ []
reason_of_line (packet_oos sn last_sn) = out_of_sequence ∷ []
reason_of_line _ = []

abbrev loss_of_line : Line → ℕ
loss_of_line (packet_lost received expected) = sub32 received expected
loss_of_line _ = 0

unfoldable pub announced : List Line → List ℕ
announced [] = []
announced (l ∷ ls) = sn_of_line l ++ announced ls

unfoldable pub shown : List Line → List (List ℕ)
shown [] = []
shown (l ∷ ls) = payload_of_line l ++ shown ls

unfoldable pub refusals : List Line → List DropReason
refusals [] = []
refusals (l ∷ ls) = reason_of_line l ++ refusals ls

-- the sum of the losses reported
unfoldable pub losses : List Line → ℕ
losses [] = 0
losses (l ∷ ls) = loss_of_line l + losses ls

pub announced-append : (xs ys : List Line) → announced (xs ++ ys) ≡ announced xs ++ announced ys
unfolding announced
announced-append [] ys = refl
announced-append (x ∷ xs) ys =
    ap (λ t. sn_of_line x ++ t) (announced-append xs ys)
    ∙ sym (append_assoc (sn_of_line x) (announced xs) (announced ys))

pub shown-append : (xs ys : List Line) → shown (xs ++ ys) ≡ shown xs ++ shown ys
unfolding shown
shown-append [] ys = refl
shown-append (x ∷ xs) ys =
    ap (λ t. payload_of_line x ++ t) (shown-append xs ys)
    ∙ sym (append_assoc (payload_of_line x) (shown xs) (shown ys))

pub refusals-append : (xs ys : List Line) → refusals (xs ++ ys) ≡ refusals xs ++ refusals ys
unfolding refusals
refusals-append [] ys = refl
refusals-append (x ∷ xs) ys =
    ap (λ t. reason_of_line x ++ t) (refusals-append xs ys)
    ∙ sym (append_assoc (reason_of_line x) (refusals xs) (refusals ys))

pub losses-append : (xs ys : List Line) → losses (xs ++ ys) ≡ losses xs + losses ys
unfolding losses
losses-append [] ys = omega arith
losses-append (x ∷ xs) ys = omega (arith, losses-append xs ys)

-- what these lines tell
pub record Tells (lines : List Line) (sns : List ℕ) (payloads : List (List ℕ))
    (reasons : List DropReason) (lost : ℕ) : Type 0 where
  pub announced_eq : announced lines ≡ sns
  pub shown_eq : shown lines ≡ payloads
  pub refusals_eq : refusals lines ≡ reasons
  pub losses_eq : losses lines ≡ lost

pub Tells-nil : Tells [] [] [] [] 0
unfolding announced shown refusals losses
Tells-nil = record { announced_eq = refl; shown_eq = refl; refusals_eq = refl; losses_eq = refl }

pub Tells-append :
    {xs ys : List Line} {a b : List ℕ} {p q : List (List ℕ)} {r s : List DropReason} {l m : ℕ}
    → Tells xs a p r l
    → Tells ys b q s m
    → Tells (xs ++ ys) (a ++ b) (p ++ q) (r ++ s) (l + m)
Tells-append {xs} {ys} x y = record {
  announced_eq = announced-append xs ys ∙ ap₂ ◌++◌ x.announced_eq y.announced_eq;
  shown_eq = shown-append xs ys ∙ ap₂ ◌++◌ x.shown_eq y.shown_eq;
  refusals_eq = refusals-append xs ys ∙ ap₂ ◌++◌ x.refusals_eq y.refusals_eq;
  losses_eq = omega (arith, losses-append xs ys, x.losses_eq, y.losses_eq);
}

Tells-losses :
    {ls : List Line} {a : List ℕ} {p : List (List ℕ)} {r : List DropReason} {l m : ℕ}
    → Tells ls a p r l
    → l ≡ m
    → Tells ls a p r m
Tells-losses {ls} {a} {p} {r} t e = subst (Tells ls a p r) e t

pub recv_lines-Tells : {Double : Type 0} (n : AppNet Double) → Tells (recv_lines n) [] [] [] 0
unfolding recv_lines announced shown refusals losses
recv_lines-Tells n = ground arith

pub drop_line-Tells :
    {Double : Type 0} (r : DropReason) (n : AppNet Double) (p : Packet Double)
    → Tells (drop_line r n p ∷ []) [] [] (r ∷ []) 0
unfolding drop_line announced shown refusals losses
drop_line-Tells r n p = ground arith

lost_lines-Tells :
    {Double : Type 0} (n : AppNet Double) (p : Packet Double)
    → Tells (lost_lines n p) [] [] [] (losses (lost_lines n p))
unfolding lost_lines announced shown refusals losses
lost_lines-Tells n p = ground arith

text_lines-Tells :
    {Double : Type 0} (n : AppNet Double) (p : Packet Double) {text : List Line}
    → text_lines n p ≡ some text
    → Tells text [] [] [] 0
unfolding text_lines announced shown refusals losses
text_lines-Tells n p h = ground arith

payload_lines-Tells :
    (bytes : List ℕ) (sn size : ℕ)
    → Tells
        (payload_received bytes ∷ sn_received sn ∷ payload_size_received size ∷ [])
        (sn ∷ [])
        (bytes ∷ [])
        []
        0
unfolding announced shown refusals losses
payload_lines-Tells bytes sn size = record {
  announced_eq = refl;
  shown_eq = refl;
  refusals_eq = refl;
  losses_eq = refl;
}

-- the lines of a packet that passes
pub accepted_lines-Tells :
    {Double : Type 0} (n : AppNet Double) (p : Packet Double) {lines : List Line}
    → accepted_lines n p ≡ some lines
    → Tells lines (p.sn ∷ []) (content p ∷ []) [] (losses (lost_lines n p))
unfolding accepted_lines print_payload
accepted_lines-Tells n p {lines} h =
    let (bytes, printed, more) = >>=-eq-some (print_payload p) _ h in
    let (text, spelt, done) = >>=-eq-some (text_lines n p) _ more in
    let same : bytes ≡ content p = ground (arith, printed) in
    let t =
      Tells-append (lost_lines-Tells n p) (
        Tells-append (payload_lines-Tells bytes p.sn p.payload_size)
          (text_lines-Tells n p spelt)) in
    subst₂ (λ ls b. Tells ls (p.sn ∷ []) (b ∷ []) [] (losses (lost_lines n p)))
      (some-injective _ _ done) same (Tells-losses t (omega arith))

-- Down to debug level 0, a packet's lines tell what has become of it.
pub verdict_lines-Tells :
    {Double : Type 0} (v : Verdict) (n : AppNet Double) (p : Packet Double) {lines : List Line}
    → logs_at 0 n.debug ≡ true
    → verdict_lines v n p ≡ some lines
    → Tells lines
        (elim v [ accepted ↦ p.sn ∷ [] | dropped r ↦ [] ])
        (elim v [ accepted ↦ content p ∷ [] | dropped r ↦ [] ])
        (elim v [ accepted ↦ [] | dropped r ↦ r ∷ [] ])
        (elim v [ accepted ↦ losses (lost_lines n p) | dropped r ↦ 0 ])
unfolding verdict_lines
verdict_lines-Tells accepted n p on h = accepted_lines-Tells n p (ground (arith, on, h))
verdict_lines-Tells (dropped r) n p {lines} on h =
    subst (λ ls. Tells ls [] [] (r ∷ []) 0) (ground (arith, on, h)) (drop_line-Tells r n p)

module _ (sim : Sim) where
  open sim use {Double}

  -- The losses that the lines report are those that the module counts.
  pub count-losses :
      (now : Double) (p : Packet Double) (n : AppNet Double) {n' : AppNet Double} {v : Verdict}
      → count sim now p n ≡ some (n', v)
      → n'.pkts_lost % 2 ^ 32
        ≡ (n.pkts_lost + elim v [ accepted ↦ losses (lost_lines n' p) | dropped r ↦ 0 ]) % 2 ^ 32
  unfolding count lost_lines losses
  count-losses now p n h = ground arith
