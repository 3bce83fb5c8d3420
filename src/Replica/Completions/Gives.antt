-- ===== src/Replica/Completions/Gives.antt =====
-- What a piece of the loop tells the callers that wait (common/completion.h): results with a given
-- property only, and a result that has been given stays.
use mathlib.Core.List.{Memᴰ}
use adviskv.Base.{
  ℕ, ◌≡◌, refl, sym, subst, ap, ◌∙◌, true, false, List, [], ◌∷◌, Bool-cases, inl, inr, lookup,
  nat_eq, arith,
}
use adviskv.Replica.Completions.{
  CompletionResult, Completions, waits, needs_result, Answered, Answered-done, finish,
  finish-Answered, finish-kept, needs_result-finish, finish_all,
}

pub record Gives (P : ℕ → CompletionResult → Type 0) (cs cs' : Completions) : Type 0 where
  pub kept : (id : ℕ) → needs_result id cs ≡ false → lookup id cs' ≡ lookup id cs
  pub given :
      (id : ℕ) (r : CompletionResult) → needs_result id cs ≡ true → Answered cs' id r → P id r

module _ {P : ℕ → CompletionResult → Type 0} where
  pub Gives-refl : (cs : Completions) → Gives P cs cs
  Gives-refl cs = record {
    kept = λ id w. refl;
    given = λ id r w a. absurd (ground (arith, Answered-done cs id r a, w));
  }

  pub Gives-trans :
      {cs cs' cs'' : Completions} → Gives P cs cs' → Gives P cs' cs'' → Gives P cs cs''
  unfolding needs_result
  Gives-trans {cs = cs} {cs' = cs'} g h = record {
    kept = λ id w. h.kept id (ap waits (g.kept id w) ∙ w) ∙ g.kept id w;
    given = λ id r w a. elim (Bool-cases (needs_result id cs')) [
      | inl still ↦ h.given id r still a
      | inr done ↦ g.given id r w (sym (h.kept id done) ∙ a)
    ];
  }

  pub Gives-finish :
      (id : ℕ) (r : CompletionResult) (cs : Completions) → P id r → Gives P cs (finish id r cs)
  Gives-finish id r cs p = record {
    kept = λ j w. finish-kept id j r cs w;
    given = λ j r' w a.
        let (same, told) = finish-Answered id j r r' cs w a in
        subst (P j) told (subst (λ k. P k r) same p);
  }

  pub Gives-finish_all :
      (ids : List ℕ) (r : CompletionResult) (cs : Completions)
      → ((id : ℕ) → Memᴰ id ids → P id r)
      → Gives P cs (finish_all ids r cs)
  unfolding finish_all
  Gives-finish_all [] r cs h = Gives-refl cs
  Gives-finish_all (id ∷ ids) r cs h =
      Gives-trans (Gives-finish id r cs (h id (Memᴰ.head refl)))
        (Gives-finish_all ids r (finish id r cs) (λ j m. h j (Memᴰ.tail m)))

  -- Who does not wait before does not wait after.
  pub Gives-done :
      {cs cs' : Completions} (id : ℕ)
      → Gives P cs cs'
      → needs_result id cs ≡ false
      → needs_result id cs' ≡ false
  unfolding needs_result
  Gives-done id g w = ap waits (g.kept id w) ∙ w

pub Gives-map :
    {P Q : ℕ → CompletionResult → Type 0} {cs cs' : Completions}
    → ((id : ℕ) (r : CompletionResult) → P id r → Q id r)
    → Gives P cs cs'
    → Gives Q cs cs'
Gives-map f g = record { kept = g.kept; given = λ id r w a. f id r (g.given id r w a) }

-- Whoever is finished does not wait afterwards.
pub finish_all-done :
    (ids : List ℕ) (r : CompletionResult) (cs : Completions) (id : ℕ)
    → Memᴰ id ids
    → needs_result id (finish_all ids r cs) ≡ false
unfolding finish_all
finish_all-done [] r cs id m = elim m [ ]
finish_all-done (j ∷ ids) r cs id (Memᴰ.head same) =
    let first : needs_result id (finish j r cs) ≡ false =
      ground (arith, needs_result-finish j id r cs, same, nat_eq.same_iff j id) in
    Gives-done id (Gives-finish_all {P = λ i s. Unit} ids r (finish j r cs) (λ i n. tt)) first
finish_all-done (j ∷ ids) r cs id (Memᴰ.tail m) = finish_all-done ids r (finish j r cs) id m
