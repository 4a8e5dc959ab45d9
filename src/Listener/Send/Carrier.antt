-- ===== src/Listener/Send/Carrier.antt =====
-- A connection to a client, as those see it who send messages with `send_data`.
use desert_addon_uwapp_net.Common.{
  ℕ, ◌≤◌, ◌<◌, ◌^◌, ◌≡◌, ◌≢◌, refl, sym, ap, ◌∙◌, Bool, true, some, List, [], ◌∷◌, ◌++◌, length,
  take,
}
use mathlib.Core.List.{append_assoc, append-nil}
use desert_addon_uwapp_net.Kernel.{Kernel}
use desert_addon_uwapp_net.Listener.{Listener}
use desert_addon_uwapp_net.Listener.Wire.{frame}
use desert_addon_uwapp_net.Listener.Send.{send_data}
use desert_addon_uwapp_net.Listener.Send.Framing.{Sink, send_data-frame}
use desert_addon_uwapp_net.Listener.Handle.Messages.{frames, frames-append}

-- What the messages that are sent between two states do to the connection.
pub record Carrier (os : Kernel) (fd : ℕ) : Type 1 where
  pub carried : os.State → List (List ℕ) → os.State → Type 0
  pub carried_nil : (s : os.State) → carried s [] s
  pub carried_append :
      {s s₁ s' : os.State} (a b : List (List ℕ))
      → carried s a s₁
      → carried s₁ b s'
      → carried s (a ++ b) s'
  pub carried_send :
      {Double : Type 0} (l : Listener Double) (msg : List ℕ) (size : ℕ) (s : os.State)
      → l.cln_sock_descr ≡ fd
      → fd ≢ 0
      → size ≤ length msg
      → size < 2 ^ 32
      → (ok : Bool) × (s' : os.State) × (send_data os msg size l s ≡ some (ok, s'))
        × carried s (take size msg ∷ []) s'

pub frames-nil : frames [] ≡ []
unfolding frames
frames-nil = refl

pub frames-single : (msg : List ℕ) → frames (msg ∷ []) ≡ frame msg
unfolding frames
frames-single msg = append-nil (frame msg)

-- The frames of all messages go to a client that takes all bytes.
abbrev pub sink_carrier : {os : Kernel} {fd : ℕ} → Sink os fd → Carrier os fd
sink_carrier {os} k = record {
  carried = λ s ms s'. k.sent s' ≡ k.sent s ++ frames ms;
  carried_nil = λ s. sym (ap (λ t. k.sent s ++ t) frames-nil ∙ append-nil (k.sent s));
  carried_append = λ {s} {s₁} {s'} a b f g.
      g
      ∙ ap (λ t. t ++ frames b) f
      ∙ append_assoc (k.sent s) (frames a) (frames b)
      ∙ ap (λ t. k.sent s ++ t) (sym (frames-append a b));
  carried_send = λ l msg size s c open_fd fits small.
      let (s', ran, sent) = send_data-frame os l k msg size s c open_fd fits small in
      (true, s', ran, sent ∙ ap (λ t. k.sent s ++ t) (sym (frames-single (take size msg))));
}
