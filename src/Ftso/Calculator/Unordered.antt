-- ===== src/Ftso/Calculator/Unordered.antt =====
-- The order of the observations does not matter where no two prices are equal.
use mathlib.Core.List.Memᴰ
use flare_verifiable_rag.Prelude.{
  Memᴰ, ◌≡◌, ◌↔◌, refl, sym, ap, ◌∙◌, subst, true, some, List, [], ◌∷◌, All,
}
use flare_verifiable_rag.Ftso.{Floats, IsOrdered, le, le_refl}
use flare_verifiable_rag.Ftso.Calculator.{median_of_sorted, volume_trimmed_median}
use flare_verifiable_rag.Ftso.Calculator.Sorting.{
  Obs, Sorted, Priced, Apart, Distinct, all_member, sort_by_price_lem,
}
use flare_verifiable_rag.Ftso.Calculator.Whole.{median-median_of_sorted}

module _ (f : Floats) (P : f.F → Type 0) (law : IsOrdered f P) where
  same_head :
      (x y : Obs f) (s t : List (Obs f))
      → Sorted f (x ∷ s)
      → Sorted f (y ∷ t)
      → Distinct f (x ∷ s)
      → Memᴰ y (x ∷ s)
      → Memᴰ x (y ∷ t)
      → x ≡ y
  same_head x y s t a b d (Memᴰ.head e) m = sym e
  same_head x y s t a b d (Memᴰ.tail n) (Memᴰ.head e) = e
  same_head x y s t a b d (Memᴰ.tail n) (Memᴰ.tail m) = absurd (
      all_member f (Apart f x) s y n d.0
        (all_member f (λ (p : Obs f). le f x.price p.price ≡ true) s y n a.0)
        (all_member f (λ (p : Obs f). le f y.price p.price ≡ true) t x m b.0))

  -- A member of the whole that is not the head, since the head's price occurs once.
  tail_member :
      (x z : Obs f) (s t : List (Obs f))
      → P x.price
      → All (Apart f x) s
      → Memᴰ z s
      → Memᴰ z (x ∷ t)
      → Memᴰ z t
  tail_member x z s t p d n (Memᴰ.tail m) = m
  tail_member x z s t p d n (Memᴰ.head e) =
      let r = le_refl f P law x.price p in
      absurd (all_member f (Apart f x) s x (subst (λ y. Memᴰ y s) e n) d r r)

  sorted_unique :
      (s t : List (Obs f))
      → Priced f P s
      → Sorted f s
      → Sorted f t
      → Distinct f s
      → Distinct f t
      → ((o : Obs f) → Memᴰ o s ↔ Memᴰ o t)
      → s ≡ t
  sorted_unique [] [] a x y d c h = refl
  sorted_unique [] (y ∷ t) a b c d e h = absurd (Memᴰ.not-nil ((h y).1 (Memᴰ.head refl)))
  sorted_unique (x ∷ s) [] a b c d e h = absurd (Memᴰ.not-nil ((h x).0 (Memᴰ.head refl)))
  sorted_unique (x ∷ s) (y ∷ t) a b c d e h =
      let same = same_head x y s t b c d ((h y).1 (Memᴰ.head refl)) ((h x).0 (Memᴰ.head refl)) in
      let apart_t : All (Apart f x) t = subst (λ (z : Obs f). All (Apart f z) t) (sym same) e.0 in
      let back : (z : Obs f) → Memᴰ z (y ∷ t) → Memᴰ z (x ∷ t) =
        λ z m. subst (λ (w : Obs f). Memᴰ z (w ∷ t)) (sym same) m in
      let rest = sorted_unique s t a.1 b.1 c.1 d.1 e.1 (λ z. (
        λ m. tail_member x z s t a.0 d.0 m (back z ((h z).0 (Memᴰ.tail m))),
        λ m. tail_member x z t s a.0 apart_t m ((h z).1 (Memᴰ.tail m)),
      )) in
      cc (same, rest)

  -- If no two of the prices are equal, the result does not depend on the order of the observations.
  pub volume_trimmed_median_unordered :
      (obs others : List (Obs f))
      → Priced f P obs
      → Priced f P others
      → Distinct f obs
      → Distinct f others
      → ((o : Obs f) → Memᴰ o obs ↔ Memᴰ o others)
      → volume_trimmed_median f obs ≡ volume_trimmed_median f others
  volume_trimmed_median_unordered [] [] a b d e h = refl
  volume_trimmed_median_unordered [] (y ∷ t) a b d e h =
      absurd (Memᴰ.not-nil ((h y).1 (Memᴰ.head refl)))
  volume_trimmed_median_unordered (x ∷ s) [] a b d e h =
      absurd (Memᴰ.not-nil ((h x).0 (Memᴰ.head refl)))
  volume_trimmed_median_unordered (x ∷ obs) (y ∷ others) a b d e h =
      let s = sort_by_price_lem f P law (x ∷ obs) a in
      let t = sort_by_price_lem f P law (y ∷ others) b in
      let priced = s.sorted_all (λ (p : Obs f). P p.price) a in
      let same : s.sorted ≡ t.sorted =
        sorted_unique s.sorted t.sorted priced s.sorted_order t.sorted_order (s.sorted_distinct d)
          (t.sorted_distinct e)
          (λ z. (
            λ m. (t.sorted_members z).1 ((h z).0 ((s.sorted_members z).0 m)),
            λ m. (s.sorted_members z).1 ((h z).1 ((t.sorted_members z).0 m)),
          )) in
      median-median_of_sorted f (x ∷ obs) s.sorted (λ q. cc) s.sorts
      ∙ ap (λ l. some (median_of_sorted f l)) same
      ∙ sym (median-median_of_sorted f (y ∷ others) t.sorted (λ q. cc) t.sorts)
