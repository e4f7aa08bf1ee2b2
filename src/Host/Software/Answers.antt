-- ===== src/Host/Software/Answers.antt =====
-- What `recv` of the software kernel gives.

use fpga_postgresql_hash_joi.Base.{
  ℕ, ◌≡◌, refl, sym, ap, ◌∙◌, inl, inr, List, [], ◌∷◌, ◌++◌, arith, length, take, drop,
  length-append, take-append, drop-append, List-cases, concat,
}
use fpga_postgresql_hash_joi.Host.Transport.{Delivers, Received, ok}
use Prim.Native.Nat.{min}
use fpga_postgresql_hash_joi.Host.Software.{
  SoftwareKernel, next_buffer, software_recv, software_kernel,
}

-- The bytes of the answers that are not read yet.
abbrev pub software_pending : SoftwareKernel → List ℕ
software_pending k = k.out_buf ++ concat k.resp_queue

next_buffer-concat :
    (buf : List ℕ) (queue : List (List ℕ))
    → (next_buffer buf queue).0 ++ concat ((next_buffer buf queue).1) ≡ buf ++ concat queue
unfolding next_buffer
next_buffer-concat (b ∷ bs) queue = refl
next_buffer-concat [] [] = refl
next_buffer-concat [] (f ∷ fs) = next_buffer-concat f fs

next_buffer-nil :
    (buf : List ℕ) (queue : List (List ℕ))
    → (next_buffer buf queue).0 ≡ []
    → buf ++ concat queue ≡ []
unfolding next_buffer
next_buffer-nil (b ∷ bs) queue e = absurd (ground (arith, e))
next_buffer-nil [] [] e = refl
next_buffer-nil [] (f ∷ fs) e = next_buffer-nil f fs e

-- The software kernel delivers its answers, in their order, as the interface promises.
pub software_recv-Received :
    (m : ℕ) (k : SoftwareKernel) → Received software_pending m k (software_recv m k)
unfolding software_recv
software_recv-Received m k =
    let (buf, queue) = next_buffer k.out_buf k.resp_queue in
    let same = next_buffer-concat k.out_buf k.resp_queue in
    let n = min m (length buf) in
    record {
      count = n;
      after = record k { out_buf = drop n buf; resp_queue = queue };
      returns =
          ap (λ q. ok q (record k { out_buf = drop n buf; resp_queue = queue }))
            (sym (take-append n buf (concat queue) (omega arith)) ∙ ap (λ q. take n q) same);
      few = omega arith;
      some_if = λ some_there pos. elim (List-cases buf) [
        | inl nothing ↦ absurd (some_there (next_buffer-nil k.out_buf k.resp_queue nothing))
        | inr (b, bs, e) ↦ omega (arith, pos, ap length e)
      ];
      there = omega (arith, length-append buf (concat queue), ap length same);
      left = sym (drop-append n buf (concat queue) (omega arith)) ∙ ap (λ q. drop n q) same;
    }

abbrev pub software_delivers : Delivers software_kernel
software_delivers = record { pending = software_pending; receives = software_recv-Received }
