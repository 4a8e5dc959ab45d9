-- ===== src/Listener/Send/Breaking.antt =====
-- `send_data` on a connection that breaks.
use desert_addon_uwapp_net.Common.{
  ℕ, ◌-◌, ◌≤◌, ◌<◌, ◌^◌, ◌≡◌, ◌≢◌, sym, ap, ◌∙◌, subst, Bool, false, Bool-cases, inl, inr, some,
  List, [], ◌++◌, arith, leb, length, take, length-take, length-append, take-append, take-nil, u32,
}
use mathlib.Core.List.{append_assoc, append-nil}
use desert_addon_uwapp_net.Kernel.{Kernel}
use desert_addon_uwapp_net.Listener.{Listener}
use desert_addon_uwapp_net.Listener.Wire.{magic_tag, bytes_of_word, frame}
use desert_addon_uwapp_net.Listener.Send.{wrote, send_body, send_size, send_data}
use desert_addon_uwapp_net.Listener.Send.Carrier.{Carrier, frames-nil, frames-single}
use desert_addon_uwapp_net.Listener.Handle.Messages.{frames, frames-append}

-- A connection that takes so many more bytes and then breaks: a `write` takes as many as there is
-- room for, and reports all of its bytes exactly if it has taken them.
pub record Breaking (os : Kernel) (fd : ℕ) : Type 0 where
  pub sent : os.State → List ℕ
  pub room : os.State → ℕ
  pub write_sent :
      (bs : List ℕ) (s : os.State) → sent (os.write fd bs s).1 ≡ sent s ++ take (room s) bs
  pub write_room : (bs : List ℕ) (s : os.State) → room (os.write fd bs s).1 ≡ room s - length bs
  pub reports :
      (bs : List ℕ) (s : os.State)
      → wrote (os.write fd bs s).0 (length bs) ≡ leb (length bs) (room s)

take-take_append :
    (k : ℕ) (xs ys t : List ℕ)
    → (t ++ take k xs) ++ take (k - length xs) ys ≡ t ++ take k (xs ++ ys)
take-take_append k xs ys t =
    append_assoc t (take k xs) (take (k - length xs) ys)
    ∙ ap (λ u. t ++ u) (sym (take-append k xs ys))

module _ (os : Kernel) {fd : ℕ} (o : Breaking os fd) where
  open os use {State}

  -- From `s` to `s'` these bytes have been sent, as far as there was room.
  pub record Cut (s : State) (bs : List ℕ) (s' : State) : Type 0 where
    pub sent : o.sent s' ≡ o.sent s ++ take (o.room s) bs
    pub room : o.room s' ≡ o.room s - length bs

  pub Cut-append :
      {s s₁ s' : State} (xs ys : List ℕ) → Cut s xs s₁ → Cut s₁ ys s' → Cut s (xs ++ ys) s'
  Cut-append {s} {s₁} {s'} xs ys a b = record {
    sent =
        b.sent
        ∙ ap (λ k. o.sent s₁ ++ take k ys) a.room
        ∙ ap (λ t. t ++ take (o.room s - length xs) ys) a.sent
        ∙ take-take_append (o.room s) xs ys (o.sent s);
    room = omega (arith, a.room, b.room, length-append xs ys);
  }

  pub Cut-nil : (s : State) → Cut s [] s
  Cut-nil s = record {
    sent = sym (ap (λ t. o.sent s ++ t) (take-nil ℕ (o.room s)) ∙ append-nil (o.sent s));
    room = omega arith;
  }

  -- Nothing comes behind the break.
  Cut-full :
      {s s₁ : State} (xs ys : List ℕ) → Cut s xs s₁ → o.room s < length xs → Cut s (xs ++ ys) s₁
  Cut-full {s} {s₁} xs ys a full =
      let none_left : o.room s - length xs ≡ 0 = omega (arith, full) in
      record {
        sent =
            a.sent
            ∙ sym (append-nil (o.sent s ++ take (o.room s) xs))
            ∙ ap (λ k. (o.sent s ++ take (o.room s) xs) ++ take k ys) (sym none_left)
            ∙ take-take_append (o.room s) xs ys (o.sent s);
        room = omega (arith, a.room, full, length-append xs ys);
      }

  write-Cut : (bs : List ℕ) (s : State) → Cut s bs (os.write fd bs s).1
  write-Cut bs s = record { sent = o.write_sent bs s; room = o.write_room bs s }

  wrote-full :
      (bs : List ℕ) (s : State)
      → wrote (os.write fd bs s).0 (length bs) ≡ false
      → o.room s < length bs
  wrote-full bs s h = ground (arith, h, o.reports bs s)

  pub send_data-Cut :
      {Double : Type 0} (l : Listener Double) (msg : List ℕ) (size : ℕ) (s : State)
      → l.cln_sock_descr ≡ fd
      → fd ≢ 0
      → size ≤ length msg
      → size < 2 ^ 32
      → (ok : Bool) × (s' : State) × (send_data os msg size l s ≡ some (ok, s'))
        × Cut s (frame (take size msg)) s'
  unfolding send_data send_size send_body frame bytes_of_word
  send_data-Cut l msg size s c open_fd fits small =
      let tag = bytes_of_word magic_tag in
      let head = bytes_of_word (u32 size) in
      let body = take size msg in
      let len : length body ≡ size = omega (arith, length-take size msg) in
      let s₁ = (os.write fd tag s).1 in
      let s₂ = (os.write fd head s₁).1 in
      let s₃ = (os.write fd body s₂).1 in
      let whole : u32 size ≡ length body = omega (arith, len) in
      let sum : (s' : State) → Cut s (tag ++ (head ++ body)) s' → Cut s (frame body) s' =
        λ s' w. subst (λ n. Cut s (tag ++ (bytes_of_word n ++ body)) s') whole w in
      elim (Bool-cases (wrote (os.write fd tag s).0 4)) [
        | inr cut ↦ (
          false,
          s₁,
          ground (arith, c, cut),
          sum s₁ (Cut-full tag (head ++ body) (write-Cut tag s) (wrote-full tag s cut)),
        )
        | inl full ↦ elim (Bool-cases (wrote (os.write fd head s₁).0 4)) [
          | inr cut ↦ (
            false,
            s₂,
            ground (arith, c, full, cut),
            sum s₂ (
                Cut-append tag (head ++ body) (write-Cut tag s)
                  (Cut-full head body (write-Cut head s₁) (wrote-full head s₁ cut))),
          )
          | inl full₂ ↦ (
            wrote (os.write fd body s₂).0 (length body),
            s₃,
            ground (arith, c, full, full₂, len),
            sum s₃ (
                Cut-append tag (head ++ body) (write-Cut tag s)
                  (Cut-append head body (write-Cut head s₁) (write-Cut body s₂))),
          )
        ]
      ]

-- To a client whose connection breaks the frames go up to the break.
abbrev pub breaking_carrier : {os : Kernel} {fd : ℕ} → Breaking os fd → Carrier os fd
breaking_carrier {os} o = record {
  carried = λ s ms s'. Cut os o s (frames ms) s';
  carried_nil = λ s. subst (λ t. Cut os o s t s) (sym frames-nil) (Cut-nil os o s);
  carried_append = λ {s} {s₁} {s'} a b f g.
      subst (λ t. Cut os o s t s') (sym (frames-append a b))
        (Cut-append os o (frames a) (frames b) f g);
  carried_send = λ l msg size s c open_fd fits small.
      let (ok, s', ran, sent) = send_data-Cut os o l msg size s c open_fd fits small in
      (ok, s', ran, subst (λ t. Cut os o s t s') (sym (frames-single (take size msg))) sent);
}
