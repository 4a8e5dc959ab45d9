-- ===== src/Node/Command.antt =====
-- uwAppNet_module.cpp, `command`: which Tcl command a word names, and what the queries answer.
use Prim.Native.String.{String}
use desert_addon_uwapp_net.Common.{
  ℕ, ◌+◌, ◌≡◌, ◌↔◌, refl, sym, ap, ◌∙◌, Bool, true, false, ◌&&◌, Option, none, some, List, [], ◌∷◌,
  map, arith, leb, codes, ◌==◌, if◌then◌else◌,
}
use desert_addon_uwapp_net.Sim.{Sim}
use desert_addon_uwapp_net.AppNet.{
  AppNet, get_pkt_sent, get_pkt_lost, get_pkt_recv, get_pkts_oo_sequence, get_pkts_invalid_rx,
  get_pkts_push_queue,
}
use desert_addon_uwapp_net.AppNet.Averages.{
  get_rtt, get_rtt_std, get_ftt, get_ftt_std, get_per, get_thr,
}

unfoldable pub to_lower : ℕ → ℕ
to_lower c = if leb b'A' c && leb c b'Z' then c + 32 else c

-- `strcasecmp(a, b) == 0`
unfoldable pub strcasecmp_eq : List ℕ → List ℕ → Bool
unfolding to_lower
strcasecmp_eq [] [] = true
strcasecmp_eq [] (b ∷ bs) = false
strcasecmp_eq (a ∷ xs) [] = false
strcasecmp_eq (a ∷ xs) (b ∷ bs) = to_lower a == to_lower b && strcasecmp_eq xs bs

pub data Command : Type 0 where
  start stop getsentpkts lostpkts getrecvpkts outofsequencepkts notknownpktrx getrecvpktsqueue :
      Command
  getrtt getrttstd getftt getfttstd getper getthr : Command

-- The commands of two words, by the second word; `none` goes to `Module::command`.
unfoldable pub command_of : List ℕ → Option Command
command_of w =
    if strcasecmp_eq w (codes "start")
    then some start
    else if strcasecmp_eq w (codes "stop")
    then some stop
    else if strcasecmp_eq w (codes "getsentpkts")
    then some getsentpkts
    else if strcasecmp_eq w (codes "lostpkts")
    then some lostpkts
    else if strcasecmp_eq w (codes "getrecvpkts")
    then some getrecvpkts
    else if strcasecmp_eq w (codes "outofsequencepkts")
    then some outofsequencepkts
    else if strcasecmp_eq w (codes "notknownpktrx")
    then some notknownpktrx
    else if strcasecmp_eq w (codes "getrecvpktsqueue")
    then some getrecvpktsqueue
    else if strcasecmp_eq w (codes "getrtt")
    then some getrtt
    else if strcasecmp_eq w (codes "getrttstd")
    then some getrttstd
    else if strcasecmp_eq w (codes "getftt")
    then some getftt
    else if strcasecmp_eq w (codes "getfttstd")
    then some getfttstd
    else if strcasecmp_eq w (codes "getper")
    then some getper
    else if strcasecmp_eq w (codes "getthr")
    then some getthr
    else none

-- The result text: `%d` of an `int`, `%f` of a `double`, or `%f` of an `int`, which is undefined.
pub data Reply (Double : Type 0) : Type 0 where
  decimal : ℕ → Reply Double
  floating : Double → Reply Double
  mismatched : ℕ → Reply Double

unfoldable pub answer : (sim : Sim) → Command → AppNet sim.Double → Option (Reply sim.Double)
unfolding get_pkt_sent
answer sim start n = none
answer sim stop n = none
answer sim getsentpkts n = some (decimal (get_pkt_sent n))
answer sim lostpkts n = some (mismatched (get_pkt_lost n))
answer sim getrecvpkts n = some (decimal (get_pkt_recv n))
answer sim outofsequencepkts n = some (mismatched (get_pkts_oo_sequence n))
answer sim notknownpktrx n = some (mismatched (get_pkts_invalid_rx n))
answer sim getrecvpktsqueue n = some (decimal (get_pkts_push_queue n))
answer sim getrtt n = some (floating (get_rtt sim n))
answer sim getrttstd n = some (floating (get_rtt_std sim n))
answer sim getftt n = some (floating (get_ftt sim n))
answer sim getfttstd n = some (floating (get_ftt_std sim n))
answer sim getper n = some (floating (get_per sim n))
answer sim getthr n = some (floating (get_thr sim n))

-- the names, in lower case
abbrev pub name : Command → String
name start = "start"
name stop = "stop"
name getsentpkts = "getsentpkts"
name lostpkts = "lostpkts"
name getrecvpkts = "getrecvpkts"
name outofsequencepkts = "outofsequencepkts"
name notknownpktrx = "notknownpktrx"
name getrecvpktsqueue = "getrecvpktsqueue"
name getrtt = "getrtt"
name getrttstd = "getrttstd"
name getftt = "getftt"
name getfttstd = "getfttstd"
name getper = "getper"
name getthr = "getthr"

strcasecmp_eq-map : (a b : List ℕ) → strcasecmp_eq a b ≡ true → map to_lower a ≡ map to_lower b
unfolding strcasecmp_eq
strcasecmp_eq-map [] [] h = refl
strcasecmp_eq-map [] (b ∷ bs) h = cc
strcasecmp_eq-map (a ∷ xs) [] h = cc
strcasecmp_eq-map (a ∷ xs) (b ∷ bs) h = ground (arith, strcasecmp_eq-map xs bs)

to_lower-to_lower : (c : ℕ) → to_lower (to_lower c) ≡ to_lower c
unfolding to_lower
to_lower-to_lower c = ground arith

strcasecmp_eq-lower : (a b : List ℕ) → strcasecmp_eq (map to_lower a) b ≡ strcasecmp_eq a b
unfolding strcasecmp_eq
strcasecmp_eq-lower [] [] = refl
strcasecmp_eq-lower [] (b ∷ bs) = refl
strcasecmp_eq-lower (a ∷ xs) [] = refl
strcasecmp_eq-lower (a ∷ xs) (b ∷ bs) = rw (to_lower-to_lower a, strcasecmp_eq-lower xs bs)

command_of-lower : (w : List ℕ) → command_of (map to_lower w) ≡ command_of w
unfolding command_of
command_of-lower w = simp (strcasecmp_eq-lower)

lower-name : (c : Command) → map to_lower (codes (name c)) ≡ codes (name c)
unfolding to_lower
lower-name start = refl
lower-name _ = refl

command_of-name : (c : Command) → command_of (codes (name c)) ≡ some c
unfolding command_of strcasecmp_eq
command_of-name start = refl
command_of-name _ = refl

command_of-matches :
    (w : List ℕ) (c : Command) → command_of w ≡ some c → strcasecmp_eq w (codes (name c)) ≡ true
unfolding command_of
command_of-matches w start h = ground arith
command_of-matches w _ h = ground arith

-- A word is understood as a command exactly if it is the command's name up to the case of letters.
pub command_of_iff :
    (w : List ℕ) (c : Command) → (command_of w ≡ some c) ↔ (map to_lower w ≡ codes (name c))
command_of_iff w c = (
  λ h. strcasecmp_eq-map w (codes (name c)) (command_of-matches w c h) ∙ lower-name c,
  λ e. sym (command_of-lower w) ∙ ap command_of e ∙ command_of-name c,
)
