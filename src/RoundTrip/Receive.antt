-- ===== src/RoundTrip/Receive.antt =====
-- Receiving an exact number of bytes from a transport on which they have arrived.
use fpga_postgresql_hash_joi.Base.{
  ℕ, zero, suc, ◌-◌, ◌≤◌, ◌≡◌, refl, sym, ap, ◌∙◌, List, [], ◌∷◌, ◌++◌, arith, length, take, drop,
  take-append, drop-append, length-take, length-drop, take-append-drop,
}
use fpga_postgresql_hash_joi.Host.Transport.{
  Result, Transport, Delivers, recv_rounds, ok, recv_exact, Received,
}

module _ {T : Type 0} (tr : Transport T) (d : Delivers tr) where
  -- The call returns the bytes `bs`, and leaves the bytes `rest`.
  abbrev pub Gets : {A : Type 0} → A → List ℕ → Result T A → Type 0
  Gets a rest r = (t' : T) × (r ≡ ok a t') × (d.pending t' ≡ rest)

  recv_rounds_step :
      (fuel n b : ℕ) (xs more : List ℕ) (t t' t'' : T)
      → tr.recv (suc n) t ≡ ok (b ∷ xs) t'
      → recv_rounds tr fuel (suc n - suc (length xs)) t' ≡ ok more t''
      → recv_rounds tr (suc fuel) (suc n) t ≡ ok (b ∷ xs ++ more) t''
  unfolding recv_rounds
  recv_rounds_step fuel n b xs more t t' t'' got run = ground arith

  -- One round receives a nonempty part of the bytes, and the other rounds receive the rest.
  module _ (fuel n : ℕ) (t : T) (b : ℕ) (bs rest : List ℕ) where
    recv_round-Gets :
        (c : ℕ) (t' : T)
        → d.pending t ≡ (b ∷ bs) ++ rest
        → length bs ≡ n
        → suc c ≤ suc n
        → tr.recv (suc n) t ≡ ok (take (suc c) (d.pending t)) t'
        → d.pending t' ≡ drop (suc c) (d.pending t)
        → ((m : ℕ) (cs : List ℕ)
            → length cs ≡ m
            → m ≤ n
            → d.pending t' ≡ cs ++ rest
            → Gets cs rest (recv_rounds tr fuel m t'))
        → Gets (b ∷ bs) rest (recv_rounds tr (suc fuel) (suc n) t)
    recv_round-Gets c t' p len le got left more =
        let got' : tr.recv (suc n) t ≡ ok (b ∷ take c bs) t' =
          got
          ∙ ap (λ xs. ok xs t')
              (ap (take (suc c)) p ∙ take-append (suc c) (b ∷ bs) rest (omega arith)) in
        let left' : d.pending t' ≡ drop c bs ++ rest =
          left ∙ ap (drop (suc c)) p ∙ drop-append (suc c) (b ∷ bs) rest (omega arith) in
        let (t'', run, done) =
          more (suc n - suc (length (take c bs))) (drop c bs)
            (omega (arith, length-take c bs (omega arith), length-drop c bs)) (omega arith) left' in
        (
          t'',
          recv_rounds_step fuel n b (take c bs) (drop c bs) t t' t'' got' run
              ∙ ap (λ xs. ok (b ∷ xs) t'') (take-append-drop c bs),
          done,
        )

  recv_rounds-Gets :
      (fuel n : ℕ) (t : T) (bs rest : List ℕ)
      → length bs ≡ n
      → n ≤ fuel
      → d.pending t ≡ bs ++ rest
      → Gets bs rest (recv_rounds tr fuel n t)
  recv_rounds-Gets fuel zero t [] rest e le p = (t, unfold recv_rounds in refl, p)
  recv_rounds-Gets fuel zero t (b ∷ bs) rest e le p = absurd (omega arith)
  recv_rounds-Gets fuel (suc n) t [] rest e le p = absurd (omega arith)
  recv_rounds-Gets zero (suc n) t (b ∷ bs) rest e le p = absurd (omega arith)
  recv_rounds-Gets (suc fuel) (suc n) t (b ∷ bs) rest e le p =
      with_count (λ m cs t' len le' p'. recv_rounds-Gets fuel m t' cs rest len le' p') r.count refl
    where
      r : Received d.pending (suc n) t (tr.recv (suc n) t)
      r = d.receives (suc n) t

      with_count :
          ((m : ℕ) (cs : List ℕ) (t' : T)
            → length cs ≡ m
            → m ≤ fuel
            → d.pending t' ≡ cs ++ rest
            → Gets cs rest (recv_rounds tr fuel m t'))
          → (c : ℕ) → r.count ≡ c
          → Gets (b ∷ bs) rest (recv_rounds tr (suc fuel) (suc n) t)
      with_count more zero z = absurd (omega (arith, r.some_if (λ h. cc (sym p ∙ h)) (omega arith)))
      with_count more (suc c) z =
          recv_round-Gets fuel n t b bs rest c r.after p (omega arith) (omega (arith, r.few))
            (rw z at r.returns) (rw z at r.left)
            (λ m cs len le' p'. more m cs r.after len (omega arith) p')

  -- `recv_exact` gets all the bytes that it is asked for, however the transport splits them.
  pub recv_exact-Gets :
      (n : ℕ) (t : T) (bs rest : List ℕ)
      → length bs ≡ n
      → d.pending t ≡ bs ++ rest
      → Gets bs rest (recv_exact tr n t)
  unfolding recv_exact
  recv_exact-Gets n t bs rest e p = recv_rounds-Gets n n t bs rest e (omega arith) p
