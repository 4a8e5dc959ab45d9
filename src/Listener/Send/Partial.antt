-- ===== src/Listener/Send/Partial.antt =====
-- What `send_data` puts on a connection whose writes may be short or fail.
use desert_addon_uwapp_net.Common.{
  ℕ, zero, suc, ◌+◌, ◌≤◌, ◌<◌, ◌^◌, ◌≡◌, ◌≢◌, ◌↔◌, inl, inr, refl, sym, ap, ◌∙◌, subst, Bool,
  Bool-cases, true, false, Option, none, some, List, [], ◌∷◌, ◌++◌, arith, length, take,
  length-take, length-append, take_self, u32,
}
use mathlib.Core.List.{append_assoc}
use desert_addon_uwapp_net.Kernel.{Kernel}
use desert_addon_uwapp_net.Listener.{Listener}
use desert_addon_uwapp_net.Listener.Wire.{magic_tag, bytes_of_word, frame}
use desert_addon_uwapp_net.Listener.Send.{wrote, send_body, send_size, send_data}

-- the bytes that a `write` with this result has taken
abbrev pub taken : Option ℕ → List ℕ → List ℕ
taken none bs = []
taken (some n) bs = take n bs

-- A connection, and what has been written to it: each `write` takes as many of the bytes, from the
-- first one on, as it reports, or fails and takes none.
pub record Outlet (os : Kernel) (fd : ℕ) : Type 0 where
  pub sent : os.State → List ℕ
  pub write_count :
      (bs : List ℕ) (s : os.State) (n : ℕ) → (os.write fd bs s).0 ≡ some n → n ≤ length bs
  pub write_sent :
      (bs : List ℕ) (s : os.State)
      → sent (os.write fd bs s).1 ≡ sent s ++ taken (os.write fd bs s).0 bs

take-append_le : (k : ℕ) (xs ys : List ℕ) → k ≤ length xs → take k (xs ++ ys) ≡ take k xs
take-append_le zero xs ys h = refl
take-append_le (suc k) [] ys h = absurd (omega (arith, h))
take-append_le (suc k) (x ∷ xs) ys h = ap (λ t. x ∷ t) (take-append_le k xs ys (omega (arith, h)))

take-append_add : (k : ℕ) (xs ys : List ℕ) → take (length xs + k) (xs ++ ys) ≡ xs ++ take k ys
take-append_add k [] ys = let e : 0 + k ≡ k = omega arith in ap (λ n. take n ys) e
take-append_add k (x ∷ xs) ys =
    let e : suc (length xs) + k ≡ suc (length xs + k) = omega arith in
    ap (λ n. take n (x ∷ (xs ++ ys))) e ∙ ap (λ t. x ∷ t) (take-append_add k xs ys)

module _ (os : Kernel) {fd : ℕ} (o : Outlet os fd) where
  open os use {State}

  -- From `s` to `s'` the first `k` of these bytes have been written, all of them exactly if `ok`.
  pub record Wrote (bs : List ℕ) (s : State) (ok : Bool) (s' : State) : Type 0 where
    pub count : ℕ
    pub within : count ≤ length bs
    pub sent : o.sent s' ≡ o.sent s ++ take count bs
    pub whole : (ok ≡ true) ↔ (count ≡ length bs)

  -- a single `write`
  write-Wrote :
      (bs : List ℕ) (s : State)
      → 0 < length bs
      → Wrote bs s (wrote (os.write fd bs s).0 (length bs)) (os.write fd bs s).1
  write-Wrote bs s pos = go (os.write fd bs s).0 refl
    where
      go :
          (r : Option ℕ)
          → (os.write fd bs s).0 ≡ r
          → Wrote bs s (wrote (os.write fd bs s).0 (length bs)) (os.write fd bs s).1
      go none e = record {
        count = 0;
        within = omega arith;
        sent = o.write_sent bs s ∙ ap (λ r. o.sent s ++ taken r bs) e;
        whole = (λ h. ground (arith, e, h), λ h. absurd (omega (arith, h, pos)));
      }
      go (some n) e = record {
        count = n;
        within = o.write_count bs s n e;
        sent = o.write_sent bs s ∙ ap (λ r. o.sent s ++ taken r bs) e;
        whole = (λ h. ground (arith, e, h), λ h. ground (arith, e, h));
      }

  -- A `write` that takes all, and then others of what follows.
  Wrote-append :
      (xs ys : List ℕ) (s s₁ s' : State) (ok : Bool)
      → Wrote xs s true s₁
      → Wrote ys s₁ ok s'
      → Wrote (xs ++ ys) s ok s'
  Wrote-append xs ys s s₁ s' ok a b =
      let all : a.count ≡ length xs = a.whole.0 refl in
      record {
        count = length xs + b.count;
        within = omega (arith, b.within, length-append xs ys);
        sent =
            b.sent
            ∙ ap (λ t. t ++ take b.count ys)
                (a.sent ∙ ap (λ t. o.sent s ++ t) (ap (λ k. take k xs) all ∙ take_self xs))
            ∙ append_assoc (o.sent s) xs (take b.count ys)
            ∙ ap (λ t. o.sent s ++ t) (sym (take-append_add b.count xs ys));
        whole = (
          λ h. omega (arith, b.whole.0 h, length-append xs ys),
          λ h. b.whole.1 (omega (arith, h, length-append xs ys)),
        );
      }

  -- A `write` that does not take all is the end of it.
  Wrote-short : (xs ys : List ℕ) (s s' : State) → Wrote xs s false s' → Wrote (xs ++ ys) s false s'
  Wrote-short xs ys s s' a =
      let less : a.count < length xs = ground (arith, a.within, a.whole) in
      record {
        count = a.count;
        within = omega (arith, a.within, length-append xs ys);
        sent = a.sent ∙ ap (λ t. o.sent s ++ t) (sym (take-append_le a.count xs ys a.within));
        whole = (λ h. cc, λ h. absurd (omega (arith, less, h, length-append xs ys)));
      }

  -- On any connection, whatever its writes report: `send_data` with a size that the array holds, and
  -- that is not 0, does not fault and writes the first bytes of the frame of the message, in order;
  -- it returns true exactly if it has written the whole frame.
  pub send_data-Wrote :
      {Double : Type 0} (l : Listener Double) (msg : List ℕ) (size : ℕ) (s : State)
      → l.cln_sock_descr ≡ fd
      → fd ≢ 0
      → size ≤ length msg
      → 0 < size
      → size < 2 ^ 32
      → (ok : Bool) × (s' : State) × (send_data os msg size l s ≡ some (ok, s'))
        × Wrote (frame (take size msg)) s ok s'
  unfolding send_data send_size send_body frame bytes_of_word
  send_data-Wrote l msg size s c open_fd fits pos small =
      let tag = bytes_of_word magic_tag in
      let head = bytes_of_word (u32 size) in
      let body = take size msg in
      let len : length body ≡ size = omega (arith, length-take size msg) in
      let s₁ = (os.write fd tag s).1 in
      let s₂ = (os.write fd head s₁).1 in
      let s₃ = (os.write fd body s₂).1 in
      let one = write-Wrote tag s (omega arith) in
      let two = write-Wrote head s₁ (omega arith) in
      let three = write-Wrote body s₂ (omega (arith, len)) in
      let whole : u32 size ≡ length body = omega (arith, len) in
      let sum : (ok : Bool) (s' : State)
          → Wrote (tag ++ (head ++ body)) s ok s'
          → Wrote (frame body) s ok s' =
        λ ok s' w. subst (λ n. Wrote (tag ++ (bytes_of_word n ++ body)) s ok s') whole w in
      elim (Bool-cases (wrote (os.write fd tag s).0 4)) [
        | inr cut ↦ (
          false,
          s₁,
          ground (arith, c, cut),
          sum false s₁
              (Wrote-short tag (head ++ body) s s₁ (subst (λ ok. Wrote tag s ok s₁) cut one)),
        )
        | inl full ↦
            let tagged = subst (λ ok. Wrote tag s ok s₁) full one in
            elim (Bool-cases (wrote (os.write fd head s₁).0 4)) [
              | inr cut ↦ (
                false,
                s₂,
                ground (arith, c, full, cut),
                sum false s₂ (
                    Wrote-append tag (head ++ body) s s₁ s₂ false tagged
                      (Wrote-short head body s₁ s₂ (subst (λ ok. Wrote head s₁ ok s₂) cut two))),
              )
              | inl full₂ ↦
                  let sized = subst (λ ok. Wrote head s₁ ok s₂) full₂ two in
                  let ok = wrote (os.write fd body s₂).0 (length body) in
                  (
                    ok,
                    s₃,
                    ground (arith, c, full, full₂, len),
                    sum ok s₃ (
                        Wrote-append tag (head ++ body) s s₁ s₃ ok tagged
                          (Wrote-append head body s₁ s₂ s₃ ok sized three)),
                  )
            ]
      ]
