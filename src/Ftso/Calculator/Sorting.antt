-- ===== src/Ftso/Calculator/Sorting.antt =====
-- `sort_by_price` sorts: the same observations, none before a cheaper one.
use mathlib.Core.List.Memᴰ
use mathlib.Core.List.Permᴰ
use mathlib.Core.List.{Permᴰ}
use flare_verifiable_rag.Prelude.{
  ◌≡◌, ◌↔◌, ◌⊎◌, ◌∙◌, refl, sym, ap, subst, inl, inr, true, some, List, [], ◌∷◌, Memᴰ, All, length,
  suc,
}
use flare_verifiable_rag.Ftso.{Floats, IsOrdered, le}
use flare_verifiable_rag.Ftso.Calculator.{Observation, insert, insert_into, sort_by_price}

module _ (f : Floats) where
  abbrev pub Obs : Type 0
  Obs = Observation f.F

  -- No observation stands before a cheaper one.
  abbrev pub Sorted : List Obs → Type 0
  Sorted [] = Unit
  Sorted (o ∷ obs) = All (λ (p : Obs). le f o.price p.price ≡ true) obs × Sorted obs

  abbrev pub Priced : (f.F → Type 0) → List Obs → Type 0
  Priced P obs = All (λ (o : Obs). P o.price) obs

  -- The prices of the two differ.
  abbrev pub Apart : Obs → Obs → Type 0
  Apart o p = le f o.price p.price ≡ true → le f p.price o.price ≡ true → ⊥

  abbrev pub Distinct : List Obs → Type 0
  Distinct [] = Unit
  Distinct (o ∷ obs) = All (Apart o) obs × Distinct obs

  pub all_member : (Q : Obs → Type 0) (obs : List (Obs)) (o : Obs) → Memᴰ o obs → All Q obs → Q o
  all_member Q [] o m a = absurd (Memᴰ.not-nil m)
  all_member Q (p ∷ obs) o (Memᴰ.head e) a = subst Q (sym e) a.0
  all_member Q (p ∷ obs) o (Memᴰ.tail m) a = all_member Q obs o m a.1

  module _ (P : f.F → Type 0) (law : IsOrdered f P) where
    -- The outcome of an insertion into a list of numbers of the class.
    record Inserted (o : Obs) (sorted : List Obs) : Type 1 where
      inserted : List Obs
      inserts : insert f o sorted ≡ some inserted
      members : (z : Obs) → Memᴰ z inserted ↔ ((z ≡ o) ⊎ Memᴰ z sorted)
      all_of : (Q : Obs → Type 0) → Q o → All Q sorted → All Q inserted
      in_order : Sorted sorted → Sorted inserted
      apart : All (Apart o) sorted → Distinct sorted → Distinct inserted
      longer : length inserted ≡ suc (length sorted)
      permuted : Permᴰ inserted (o ∷ sorted)

    pub cons_members : (z o : Obs) (obs : List Obs) → Memᴰ z (o ∷ obs) ↔ ((z ≡ o) ⊎ Memᴰ z obs)
    cons_members z o obs = (
      λ m. elim m [ Memᴰ.head e ↦ inl e | Memᴰ.tail n ↦ inr n ],
      λ c. elim c [ inl e ↦ Memᴰ.head e | inr n ↦ Memᴰ.tail n ],
    )

    front :
        (o p : Obs) (sorted : List Obs)
        → P o.price
        → Priced P (p ∷ sorted)
        → le f o.price p.price ≡ true
        → Sorted (p ∷ sorted)
        → Sorted (o ∷ p ∷ sorted)
    front o p sorted a b h (s, t) = ((h, above sorted b.1 s), (s, t))
      where
        above :
            (l : List Obs)
            → Priced P l
            → All (λ (q : Obs). le f p.price q.price ≡ true) l
            → All (λ (q : Obs). le f o.price q.price ≡ true) l
        above [] x y = tt
        above (q ∷ l) (x, xs) (y, ys) =
            (law.le_trans o.price p.price q.price a b.0 x h y, above l xs ys)

    insert_lem : (o : Obs) (sorted : List Obs) → P o.price → Priced P sorted → Inserted o sorted
    unfolding insert
    insert_lem o [] a b = record {
      inserted = o ∷ [];
      inserts = refl;
      members = λ z. cons_members z o [];
      all_of = λ Q q s. (q, tt);
      in_order = λ s. (tt, tt);
      apart = λ q d. (tt, tt);
      longer = refl;
      permuted = Permᴰ.refl (o ∷ []);
    }
    insert_lem o (p ∷ sorted) a b = elim (law.total o.price p.price a b.0) [
      | inl (x, _) ↦ stays (rw (x, insert) refl) (rw (x, le) refl)
      | inr (inl (x, _)) ↦ stays (rw (x, insert) refl) (rw (x, le) refl)
      | inr (inr (x, y)) ↦
          let later = insert_lem o sorted a b.1 in
          record {
            inserted = p ∷ later.inserted;
            inserts = rw (x, later.inserts, insert) refl;
            members = λ z. (
              λ m. elim ((cons_members z p later.inserted).0 m) [
                | inl e ↦ inr (Memᴰ.head e)
                | inr n ↦ elim ((later.members z).0 n) [ inl e ↦ inl e | inr k ↦ inr (Memᴰ.tail k) ]
              ],
              λ c. elim c [
                | inl e ↦ Memᴰ.tail ((later.members z).1 (inl e))
                | inr n ↦ elim ((cons_members z p sorted).0 n) [
                  | inl e ↦ Memᴰ.head e
                  | inr k ↦ Memᴰ.tail ((later.members z).1 (inr k))
                ]
              ],
            );
            all_of = λ Q q s. (s.0, later.all_of Q q s.1);
            in_order = λ s. (
              later.all_of (λ (q : Obs). le f p.price q.price ≡ true) (rw (y, le) refl) s.0,
              later.in_order s.1,
            );
            apart = λ q d. (later.all_of (Apart p) (λ x y. q.0 y x) d.0, later.apart q.1 d.1);
            longer = ap suc later.longer;
            permuted = Permᴰ.trans (Permᴰ.cons refl later.permuted) (Permᴰ.swap refl refl);
          }
    ]
      where
        stays :
            insert f o (p ∷ sorted) ≡ some (o ∷ p ∷ sorted)
            → le f o.price p.price ≡ true
            → Inserted o (p ∷ sorted)
        stays e h = record {
          inserted = o ∷ p ∷ sorted;
          inserts = e;
          members = λ z. cons_members z o (p ∷ sorted);
          all_of = λ Q q s. (q, s);
          in_order = front o p sorted a b h;
          apart = λ q d. (q, d);
          longer = refl;
          permuted = Permᴰ.refl (o ∷ p ∷ sorted);
        }

    -- The outcome of the sort.
    pub record Sorts (obs : List Obs) : Type 1 where
      pub sorted : List Obs
      pub sorts : sort_by_price f obs ≡ some sorted
      pub sorted_members : (z : Obs) → Memᴰ z sorted ↔ Memᴰ z obs
      pub sorted_all : (Q : Obs → Type 0) → All Q obs → All Q sorted
      pub sorted_order : Sorted sorted
      pub sorted_distinct : Distinct obs → Distinct sorted
      pub sorted_length : length sorted ≡ length obs
      pub sorted_perm : Permᴰ sorted obs

    pub sort_by_price_lem : (obs : List Obs) → Priced P obs → Sorts obs
    unfolding sort_by_price
    sort_by_price_lem [] a = record {
      sorted = [];
      sorts = refl;
      sorted_members = λ z. (λ m. m, λ m. m);
      sorted_all = λ Q q. tt;
      sorted_order = tt;
      sorted_distinct = λ d. tt;
      sorted_length = refl;
      sorted_perm = Permᴰ.nil;
    }
    sort_by_price_lem (o ∷ obs) a =
        let rest = sort_by_price_lem obs a.1 in
        let put = insert_lem o rest.sorted a.0 (rest.sorted_all (λ (q : Obs). P q.price) a.1) in
        record {
          sorted = put.inserted;
          sorts = ap (insert_into f o) rest.sorts ∙ put.inserts;
          sorted_members = λ z. (
            λ m. elim ((put.members z).0 m) [
              | inl e ↦ Memᴰ.head e
              | inr n ↦ Memᴰ.tail ((rest.sorted_members z).0 n)
            ],
            λ m. elim ((cons_members z o obs).0 m) [
              | inl e ↦ (put.members z).1 (inl e)
              | inr n ↦ (put.members z).1 (inr ((rest.sorted_members z).1 n))
            ],
          );
          sorted_all = λ Q q. put.all_of Q q.0 (rest.sorted_all Q q.1);
          sorted_order = put.in_order rest.sorted_order;
          sorted_distinct =
              λ d. put.apart (rest.sorted_all (Apart o) d.0) (rest.sorted_distinct d.1);
          sorted_length = put.longer ∙ ap suc rest.sorted_length;
          sorted_perm = Permᴰ.trans put.permuted (Permᴰ.cons refl rest.sorted_perm);
        }
