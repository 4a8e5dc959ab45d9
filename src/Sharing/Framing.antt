-- ===== src/Sharing/Framing.antt =====
-- What a client gets, whatever the order of the moves.
use desert_addon_uwapp_net.Common.{
  ℕ, suc, ◌+◌, ◌≤◌, ◌≡◌, ◌≢◌, refl, sym, ap, ◌∙◌, subst, take, length-append, List, [], ◌∷◌, ◌++◌,
  arith, length, All,
}
use mathlib.Core.List.{append_assoc, append-nil}
use desert_addon_uwapp_net.Listener.Wire.{frame}
use desert_addon_uwapp_net.Sharing.Attempts.{
  begun, Attempt, whole, part, sent_by, sent_by_all, parts, sent_by_all-snoc, parts-snoc_whole,
  parts-snoc_part, take_within, message_of, split_frame, whole_frame,
}
use desert_addon_uwapp_net.Sharing.{
  Sender, idle, checked, tagged, sized, Place, serving, shut, cleared, refused, chunk_of, advance,
  Client, Link, unconnected, accept_client, write_client, abandon_client, write_stray, Move,
  accepts, refuses, closes, clears, begins, writes, cuts, refuses_write, strays, fails, Moves,
  unmoved, then_move,
}

-- Put behind what was written of a frame before the client was accepted, its bytes are what calls of
-- `send_data` have sent, and then what `last` has written of a frame. Only the calls that returned
-- false have sent less than a frame.
pub record IsFramed (c : Client) (last : Sender) : Type 0 where
  pub attempts : List Attempt
  pub bytes : begun c.entry ++ c.output ≡ sent_by_all attempts ++ begun last
  pub counted : parts attempts ≡ c.failures

-- The bytes that follow one another.
extend :
    (c : Client) (last : Sender) (more : List ℕ) (attempts : List Attempt) (rest : List ℕ)
    → (f : IsFramed c last)
    → sent_by_all f.attempts ++ (begun last ++ more) ≡ sent_by_all attempts ++ rest
    → begun c.entry ++ (c.output ++ more) ≡ sent_by_all attempts ++ rest
extend c last more attempts rest f e =
    sym (append_assoc (begun c.entry) c.output more)
    ∙ ap (λ t. t ++ more) f.bytes
    ∙ append_assoc (sent_by_all f.attempts) (begun last) more
    ∙ e

write-IsFramed :
    (c : Client) (s : Sender)
    → s ≢ idle
    → IsFramed c s
    → IsFramed (record c { output = c.output ++ chunk_of s }) (advance s)
unfolding chunk_of advance sent_by
write-IsFramed c idle busy f = absurd (busy refl)
write-IsFramed c (checked msg) busy f = record {
  attempts = f.attempts;
  bytes = extend c _ _ f.attempts _ f refl;
  counted = f.counted;
}
write-IsFramed c (tagged msg) busy f = record {
  attempts = f.attempts;
  bytes = extend c _ _ f.attempts _ f refl;
  counted = f.counted;
}
write-IsFramed c (sized msg) busy f = record {
  attempts = f.attempts ++ whole msg ∷ [];
  bytes = extend c _ _ _ _ f (
      ap (λ t. sent_by_all f.attempts ++ t) (whole_frame msg)
      ∙ sent_by_all-snoc f.attempts (whole msg));
  counted = parts-snoc_whole f.attempts msg ∙ f.counted;
}

-- `send_data` returns false in the middle of a frame.
cut-IsFramed :
    (c : Client) (s : Sender) (n : ℕ)
    → s ≢ idle
    → n ≤ length (chunk_of s)
    → IsFramed c s
    → IsFramed
        (record c { output = c.output ++ take n (chunk_of s); failures = suc c.failures })
        idle
unfolding sent_by
cut-IsFramed c s n busy le f =
    let (rest, e) = split_frame s busy in
    let here = length (begun s) + n in
    let all = ap length e in
    let long = length-append (begun s) (chunk_of s ++ rest) in
    let chunk = length-append (chunk_of s) rest in
    let fits : here ≤ length (frame (message_of s)) = omega (arith, all, long, chunk) in
    record {
      attempts = f.attempts ++ part (message_of s) here fits ∷ [];
      bytes = extend c s _ _ _ f (
          ap (λ t. sent_by_all f.attempts ++ t)
            (sym (ap (take here) e ∙ take_within here (begun s) (chunk_of s) rest n refl le))
          ∙ sent_by_all-snoc f.attempts (part (message_of s) here fits));
      counted = parts-snoc_part f.attempts (message_of s) here fits ∙ ap suc f.counted;
    }

abbrev pub IsCut : Client → Type 0
IsCut c = (last : Sender) × IsFramed c last

-- A client that is connected has got what `send_data` has written; one that is closed got less.
abbrev pub Current : Place → Client → Sender → Type 0
Current serving c s = IsFramed c s
Current shut c s = IsCut c
Current cleared c s = IsCut c
Current refused c s = IsCut c

pub record Framed (s : Link) : Type 0 where
  pub current : Current s.place s.client s.sender
  pub past : All IsCut s.past

to_cut : (p : Place) (c : Client) (s : Sender) → Current p c s → IsCut c
to_cut serving c s f = (s, f)
to_cut shut c s f = f
to_cut cleared c s f = f
to_cut refused c s f = f

-- Of a client that is not connected it does not matter where `send_data` stands.
from_cut : (p : Place) (c : Client) (s : Sender) → p ≢ serving → IsCut c → Current p c s
from_cut serving c s ne f = absurd (ne refl)
from_cut shut c s ne f = f
from_cut cleared c s ne f = f
from_cut refused c s ne f = f

-- Between frames nothing has been written of the next one.
check-Current :
    (p : Place) (c : Client) (msg : List ℕ) → Current p c idle → Current p c (checked msg)
check-Current serving c msg f = record {
  attempts = f.attempts;
  bytes = f.bytes;
  counted = f.counted;
}
check-Current shut c msg f = f
check-Current cleared c msg f = f
check-Current refused c msg f = f

cut-Current :
    (s : Link) (n : ℕ)
    → s.sender ≢ idle
    → s.place ≡ serving
    → n ≤ length (chunk_of s.sender)
    → Current s.place s.client s.sender
    → Current s.place (abandon_client n s).client idle
unfolding abandon_client
cut-Current s n busy e le f =
    subst (λ p. Current p (abandon_client n s).client idle) (sym e)
      (cut-IsFramed s.client s.sender n busy le (subst (λ p. Current p s.client s.sender) e f))

Move-Framed : {s t : Link} → Move s t → Framed s → Framed t
unfolding accept_client write_client abandon_client write_stray sent_by_all parts
Move-Framed {s} (accepts e) f = record {
  current = record { attempts = []; bytes = append-nil (begun s.sender); counted = refl };
  past = (to_cut s.place s.client s.sender f.current, f.past);
}
Move-Framed {s} (refuses e) f = record {
  current = to_cut s.place s.client s.sender f.current;
  past = f.past;
}
Move-Framed {s} (closes e) f = record {
  current = to_cut s.place s.client s.sender f.current;
  past = f.past;
}
Move-Framed {s} (clears e) f = record {
  current = to_cut s.place s.client s.sender f.current;
  past = f.past;
}
Move-Framed {s} (begins msg e ne) f = record {
  current =
      check-Current s.place s.client msg (subst (λ t. Current s.place s.client t) e f.current);
  past = f.past;
}
Move-Framed {s} (writes busy e) f = record {
  current =
      subst (λ p. Current p (write_client s).client (advance s.sender)) (sym e)
        (write-IsFramed s.client s.sender busy
          (subst (λ p. Current p s.client s.sender) e f.current));
  past = f.past;
}
Move-Framed {s} (cuts n busy e lt) f = record {
  current = cut-Current s n busy e (omega arith) f.current;
  past = f.past;
}
Move-Framed {s} (refuses_write busy e) f = record {
  current = cut-Current s 0 busy e (omega arith) f.current;
  past = f.past;
}
Move-Framed {s} (strays busy e) f = record {
  current =
      from_cut s.place s.client (advance s.sender) (λ q. cc)
        (to_cut s.place s.client s.sender f.current);
  past = f.past;
}
Move-Framed {s} (fails busy ne) f = record {
  current = from_cut s.place s.client idle ne (to_cut s.place s.client s.sender f.current);
  past = f.past;
}

-- However the moves of the two threads are interleaved, and however many bytes each `write` takes,
-- each client that was ever accepted, the last one and those before it, has been sent, when what
-- had been written of a frame before it was accepted is put in front: frames, each of them whole or
-- cut off, and then the beginning of one more. Exactly as many of the frames are cut off as calls
-- of `send_data` have returned false at a `write` to that client while it was connected: if none
-- has, nothing of another frame comes between the bytes of a frame. For the client that is
-- connected, the last beginning is as much as `send_data` has written of the message it is at.
pub Moves-Framed : {s : Link} → Moves unconnected s → Framed s
unfolding sent_by_all parts
Moves-Framed unmoved = record {
  current = (idle, record { attempts = []; bytes = refl; counted = refl });
  past = tt;
}
Moves-Framed (then_move m one) = Move-Framed one (Moves-Framed m)
