-- ===== src/Client/Paging/Laws.antt =====
-- The loop over the pages: what it sends, and that it gets everything.
use terraform_provider_ocm.Prelude.{
  ℕ, zero, suc, ◌+◌, ◌*◌, ◌<◌, ◌≡◌, sym, ap, ltb, Option, some, List, ◌∷◌, ◌++◌, length, take, drop,
  take-append-drop, take-short, drop-drop, length-drop, ok, Bool-cases, inl, inr, arith,
}
use terraform_provider_ocm.Client.{Act, pure, send, ◌>>=◌}
use terraform_provider_ocm.Client.Logic.{
  Ensures, Any, pure-Ensures, send-Ensures, some_or_fail-Ensures, >>=-Ensures, if-Ensures,
}
use terraform_provider_ocm.Client.Paging.{Page, page_size, pages}

-- The answer to the request for a page, where these are all items.
abbrev pub page_of : {A : Type 0} → List A → ℕ → Page A
page_of all k =
    let items = take page_size (drop (k * page_size) all) in
    record { items = items; size = length items }

module _ {R E A : Type 0} (request : ℕ → R) (answer : List R → ℕ → Option (Page A))
    (failed exhausted : E) where
  abbrev listed : ℕ → ℕ → Act R E (List A)
  listed = pages request answer failed exhausted

  -- An invariant that the requests keep is kept.
  pub pages-Ensures :
      (P : List R → Type 0) (fuel page : ℕ)
      → ((h : List R) (k : ℕ) → P h → P (request k ∷ h))
      → Ensures P (listed fuel page) Any
  unfolding pages
  pages-Ensures P zero page keeps = λ h p. (p, tt)
  pages-Ensures P (suc fuel) page keeps =
      >>=-Ensures P (λ (r : Option (Page A)). Unit {0}) Any _ _
        (send-Ensures E P (request page) (λ h. answer h page) (λ h p. keeps h page p))
        (λ reply u.
          >>=-Ensures P (λ (found : Page A). reply ≡ some found) Any _ _
            (some_or_fail-Ensures P reply failed)
            (λ found e.
              if-Ensures P Any (ltb found.size page_size) (pure found.items)
                (listed fuel (page + 1) >>= λ rest. pure (found.items ++ rest))
                (pure-Ensures E P Any found.items tt)
                (>>=-Ensures P (λ (r : List A). Unit {0}) Any _ _
                  (pages-Ensures P fuel (page + 1) keeps)
                  (λ rest u. pure-Ensures E P Any (found.items ++ rest) tt))))

  module _ (all : List A) where
    -- The API pages a list that does not change, from page 1 on.
    abbrev pub Serves : Type 0
    Serves = (h : List R) (k : ℕ) → answer h (k + 1) ≡ some (page_of all k)

    pages_from :
        Serves
        → (fuel k : ℕ) (h : List R) → length (drop (k * page_size) all) < fuel * page_size
        → (listed fuel (k + 1) h).0 ≡ ok (drop (k * page_size) all)
    unfolding pages send
    pages_from serves zero k h enough = absurd (omega arith)
    pages_from serves (suc fuel) k h enough =
        let rest = drop (k * page_size) all in
        rw (serves h k) (elim (Bool-cases (ltb (length (take page_size rest)) page_size)) [
          | inl short ↦ rw short (ap ok (take-short page_size rest (ground arith)))
          | inr full ↦
              let next : drop page_size rest ≡ drop ((k + 1) * page_size) all =
                drop-drop page_size (k * page_size) ((k + 1) * page_size) all (omega arith) in
              let shorter : length (drop page_size rest) + page_size ≡ length rest =
                length-drop page_size rest (ground arith) in
              let size : length (drop page_size rest) ≡ length (drop ((k + 1) * page_size) all) =
                ap length next in
              rw
                (full, pages_from serves fuel (k + 1) (request (k + 1) ∷ h) (omega arith), sym next)
                (ap ok (take-append-drop page_size rest))
        ])

    pub pages-all :
        Serves
        → (fuel : ℕ) (h : List R) → length all < fuel * page_size
        → (listed fuel 1 h).0 ≡ ok all
    unfolding drop
    pages-all serves fuel h enough = pages_from serves fuel 0 h enough
