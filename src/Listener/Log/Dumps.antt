-- ===== src/Listener/Log/Dumps.antt =====
-- The payloads that the listener's lines show.
use desert_addon_uwapp_net.Common.{
  ℕ, zero, suc, ◌≤◌, ◌≡◌, refl, ap, ◌∙◌, false, List, [], ◌∷◌, ◌++◌, arith, take, if◌then◌else◌,
  is_negative,
}
use desert_addon_uwapp_net.Kernel.{Kernel}
use desert_addon_uwapp_net.Packet.{Packet, max_length_payload}
use desert_addon_uwapp_net.Hex.{to_hexstring, string_to_hexstring, hex_loop, buffer_to_hexstring}
use desert_addon_uwapp_net.Listener.{Listener}
use desert_addon_uwapp_net.Listener.Handle.Queue.{content}
use desert_addon_uwapp_net.Listener.Log.{
  LogLine, payload_message, from_level, receive_lines, size_lines, payload_lines, ready_lines,
}

-- the dumps among these lines
abbrev pub dumps : List LogLine → List (List ℕ)
dumps [] = []
dumps (payload_message t ∷ ls) = t ∷ dumps ls
dumps (_ ∷ ls) = dumps ls

pub dumps-append : (xs ys : List LogLine) → dumps (xs ++ ys) ≡ dumps xs ++ dumps ys
dumps-append [] ys = refl
dumps-append (payload_message t ∷ xs) ys = ap (λ r. t ∷ r) (dumps-append xs ys)
dumps-append (_ ∷ xs) ys = dumps-append xs ys

-- a packet's content in hexadecimal
abbrev pub dump : {Double : Type 0} → Packet Double → List ℕ
dump p = string_to_hexstring (content p) false false

hex_loop-take :
    (n : ℕ) (cs : List ℕ) → hex_loop n cs false false ≡ string_to_hexstring (take n cs) false false
unfolding hex_loop string_to_hexstring
hex_loop-take zero cs = refl
hex_loop-take (suc n) [] = refl
hex_loop-take (suc n) (c ∷ cs) = ap (λ t. to_hexstring c false false ++ t) (hex_loop-take n cs)

pub buffer_to_hexstring-take :
    (cs : List ℕ) (n : ℕ)
    → n ≤ max_length_payload
    → buffer_to_hexstring cs n false false ≡ string_to_hexstring (take n cs) false false
unfolding buffer_to_hexstring
buffer_to_hexstring-take cs n small =
    let e : (if is_negative n then 0 else n) ≡ n = ground arith in
    ap (λ k. hex_loop k cs false false) e ∙ hex_loop-take n cs

module _ (os : Kernel) {Double : Type 0} (debug : ℕ) where
  -- `ReceivePacket` and `ReadyToRead` dump nothing.
  pub receive_lines-undumped :
      (l : Listener Double) (s : os.State) → dumps (receive_lines os debug l s) ≡ []
  unfolding receive_lines size_lines payload_lines from_level
  receive_lines-undumped l s = grind arith

  pub ready_lines-undumped :
      (l : Listener Double) (s : os.State) → dumps (ready_lines os debug l s) ≡ []
  unfolding ready_lines
  ready_lines-undumped l s = grind arith
