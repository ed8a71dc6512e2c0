-- ===== src/Correlator/Nearest/Available.antt =====
-- The map of the ends that are left: what is kept as ends are taken.
use xprobe.Prelude.{
  ℕ, ◌+◌, ◌<◌, ◌≡◌, refl, ap, inl, inr, true, false, Option, some, List, [], ◌∷◌, arith, Bool-cases,
  unwrap_or, length, is_empty, length-append, All,
}
use xprobe.Rust.Ord.{nat_ord}
use xprobe.Rust.BTreeMap.{
  get, insert, remove, Ascends, insert-Ascends, remove-Ascends, All-insert, All-remove, All-get,
}
use xprobe.Rust.BTreeMap.Groups.{
  push, total, total-push, total-insert, total-remove, length-pop, All-pop, AllIn, All-push,
  pop-some,
}
use xprobe.Protocol.Event.{Event}
use xprobe.Correlator.Nearest.{Available, index_ends, take_end}

module _ {V : Type 0} where
  -- Keys ascend, no bucket is empty, and each end stands under its timestamp.
  pub record IsIndex (E : Event V → Type 0) (m : Available V) : Type 0 where
    pub ascending : Ascends m
    pub filled : All (λ g. 0 < length g.1) m
    pub stamped : All (AllIn (λ t e. (e.timestamp_ns ≡ t) × E e)) m

module _ {ℓ} {A : Type ℓ} where
  empty_length : (xs : List A) → is_empty xs ≡ true → length xs ≡ 0
  empty_length [] h = refl
  empty_length (x ∷ xs) h = cc

  filled_length : (xs : List A) → is_empty xs ≡ false → 0 < length xs
  filled_length [] h = cc
  filled_length (x ∷ xs) h = omega arith

module _ {V : Type 0} where
  pub index_ends-total :
      (ends : List (Event V)) (m : Available V) → total (index_ends ends m) ≡ total m + length ends
  unfolding index_ends
  index_ends-total [] m = omega arith
  index_ends-total (e ∷ ends) m =
      omega (arith, total-push e.timestamp_ns e m, index_ends-total ends (push e.timestamp_ns e m))

module _ {V : Type 0} (E : Event V → Type 0) where
  push-IsIndex :
      (e : Event V) (m : Available V) → E e → IsIndex E m → IsIndex E (push e.timestamp_ns e m)
  push-IsIndex e m x i =
      let old = unwrap_or (get e.timestamp_ns m) [] in
      unfold push in
      record {
        ascending = insert-Ascends e.timestamp_ns _ m i.ascending;
        filled =
            All-insert (λ g. 0 < length g.1) e.timestamp_ns _ m
              (omega (arith, length-append old (e ∷ []))) i.filled;
        stamped =
            All-push (λ t e. (e.timestamp_ns ≡ t) × E e) e.timestamp_ns e m (refl, x) i.stamped;
      }

  pub index_ends-IsIndex :
      (ends : List (Event V)) (m : Available V)
      → All E ends
      → IsIndex E m
      → IsIndex E (index_ends ends m)
  unfolding index_ends
  index_ends-IsIndex [] m h i = i
  index_ends-IsIndex (e ∷ ends) m h i =
      index_ends-IsIndex ends (push e.timestamp_ns e m) h.1 (push-IsIndex e m h.0 i)

  -- Taking an end from a bucket that is there succeeds, and leaves one end fewer.
  pub record Takes (selected : ℕ) (m : Available V) : Type 0 where
    pub end : Event V
    pub rest : Available V
    pub taken : take_end selected m ≡ some (end, rest)
    pub at_selected : end.timestamp_ns ≡ selected
    pub allowed : E end
    pub fewer : total m ≡ total rest + 1
    pub index : IsIndex E rest

  pub take_end-Takes :
      (selected : ℕ) (m : Available V) {bucket : List (Event V)}
      → get selected m ≡ some bucket
      → IsIndex E m
      → Takes selected m
  unfolding take_end
  take_end-Takes selected m {bucket} g i =
      let (end, left, p) = pop-some bucket (All-get (λ b. 0 < length b.1) selected m i.filled g) in
      let stamps = All-get (AllIn (λ t e. (e.timestamp_ns ≡ t) × E e)) selected m i.stamped g in
      let (here, others) = All-pop (λ e. (e.timestamp_ns ≡ selected) × E e) bucket stamps p in
      let shorter = length-pop bucket p in
      elim (Bool-cases (is_empty left)) [
        | inl empty ↦ record {
          end = end;
          rest = remove selected m;
          taken = rw (g, p, empty) refl;
          at_selected = here.0;
          allowed = here.1;
          fewer = omega (arith, total-remove selected m g, shorter, empty_length left empty);
          index = record {
            ascending = remove-Ascends selected m i.ascending;
            filled = All-remove (λ b. 0 < length b.1) selected m i.filled;
            stamped = All-remove (AllIn (λ t e. (e.timestamp_ns ≡ t) × E e)) selected m i.stamped;
          };
        }
        | inr more ↦ record {
          end = end;
          rest = insert selected left m;
          taken = rw (g, p, more) refl;
          at_selected = here.0;
          allowed = here.1;
          fewer = omega (
            arith,
            total-insert selected left m,
            ap (λ (o : Option (List (Event V))). length (unwrap_or o [])) g,
            shorter,
          );
          index = record {
            ascending = insert-Ascends selected left m i.ascending;
            filled =
                All-insert (λ b. 0 < length b.1) selected left m (filled_length left more) i.filled;
            stamped =
                All-insert (AllIn (λ t e. (e.timestamp_ns ≡ t) × E e)) selected left m others
                  i.stamped;
          };
        }
      ]
