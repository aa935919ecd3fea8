-- ===== src/RosaCluster/Destroy/Laws.antt =====
-- How long the deletion of a cluster waits, and when it removes the state.
use terraform_provider_ocm.Prelude.{
  ℕ, ◌+◌, ◌≤◌, String, Bool, true, false, ◌≡◌, ◌⊎◌, ◌↔◌, inl, inr, refl, Option, none, some, List,
  [], ◌∷◌, ℤ, pos, negsuc, leb_ℤ, zero, suc, ◌<◌, arith, ap, Bool-cases, ◌≢◌, Result, ok,
}
use terraform_provider_ocm.Common.Attribute.{Value, null, unknown, known, value_string, value_int64}
use terraform_provider_ocm.Common.Response.{Diagnostic, removed}
use terraform_provider_ocm.Sdk.{success, Reply-cases}
use terraform_provider_ocm.Handler.{send}
use terraform_provider_ocm.RosaCluster.Destroy.{
  DestroyState, Polled, not_found, poll_failed, no_error, delete_cluster, poll, sleep, History, Api,
  gone_after, to_int64, timeout_in_minutes, timeout_of, is_waiting_disabled, after_polls,
  wait_till_cluster_is_not_found_with_timeout, time_sleep, or_again,
  retry_cluster_not_found_with_timeout, await_removal, do_delete, delete,
}

-- The polls of this history, and the minutes that it slept.
abbrev pub polls : History → ℕ
polls [] = 0
polls (delete_cluster id ∷ h) = polls h
polls (poll id timeout ∷ h) = 1 + polls h
polls (sleep minutes ∷ h) = polls h

abbrev pub slept : History → ℕ
slept [] = 0
slept (delete_cluster id ∷ h) = slept h
slept (poll id timeout ∷ h) = slept h
slept (sleep minutes ∷ h) = minutes + slept h

-- Each poll is of this cluster, with a timeout above zero.
abbrev pub AllTimed : String → History → Type 0
AllTimed id [] = Unit
AllTimed id (delete_cluster i ∷ h) = AllTimed id h
AllTimed id (poll i timeout ∷ h) = (i ≡ id) × (leb_ℤ timeout (pos 0) ≡ false) × AllTimed id h
AllTimed id (sleep minutes ∷ h) = AllTimed id h

-- The histories after one, two and three polls.
abbrev once : String → ℤ → History → History
once id t h = poll id t ∷ h

abbrev twice : String → ℤ → History → History
twice id t h = poll id t ∷ sleep 1 ∷ once id t h

abbrev thrice : String → ℤ → History → History
thrice id t h = poll id t ∷ sleep 2 ∷ twice id t h

-- The most minutes whose nanoseconds are an int64.
abbrev pub max_minutes : ℤ
max_minutes = pos 153722867

-- So few minutes are not wrapped around.
minutes-positive :
    (n : ℕ) → 0 < n → n ≤ 153722867 → leb_ℤ (timeout_in_minutes (pos n)) (pos 0) ≡ false
unfolding timeout_in_minutes to_int64
minutes-positive n some_time fits = ground arith

timeout_of-positive :
    (v : Value ℤ)
    → leb_ℤ (value_int64 v) max_minutes ≡ true
    → leb_ℤ (timeout_in_minutes (timeout_of v).1) (pos 0) ≡ false
unfolding timeout_of
timeout_of-positive null fits = minutes-positive 60 (omega arith) (omega arith)
timeout_of-positive unknown fits = minutes-positive 60 (omega arith) (omega arith)
timeout_of-positive (known (negsuc n)) fits =
    let low : leb_ℤ (negsuc n) (pos 0) ≡ true = ground arith in
    rw low (minutes-positive 60 (omega arith) (omega arith))
timeout_of-positive (known (pos zero)) fits = minutes-positive 60 (omega arith) (omega arith)
timeout_of-positive (known (pos (suc n))) fits =
    let high : leb_ℤ (pos (suc n)) (pos 0) ≡ false = ground arith in
    rw high (minutes-positive (suc n) (omega arith) (ground arith))

-- A poll fails, or it gives an answer.
Polled-cases :
    (p : Polled) → (p ≡ poll_failed) ⊎ ((b : Bool) × (gone_after p ≡ some b) × (p ≢ poll_failed))
unfolding gone_after
Polled-cases not_found = inr (true, refl, λ e. cc)
Polled-cases poll_failed = inl refl
Polled-cases no_error = inr (false, refl, λ e. cc)

module _ (api : Api) where
  -- Each of the three polls after this history fails.
  abbrev pub GivesUp : String → ℤ → History → Type 0
  GivesUp id t h =
      (api.on_poll h id t ≡ poll_failed)
      × (api.on_poll (sleep 1 ∷ once id t h) id t ≡ poll_failed)
      × (api.on_poll (sleep 2 ∷ twice id t h) id t ≡ poll_failed)

  -- The histories that the polling may end with.
  abbrev Polling : String → ℤ → History → History → Type 0
  Polling id t h h' = (h' ≡ once id t h) ⊎ (h' ≡ twice id t h) ⊎ (h' ≡ thrice id t h)

  -- The polling gives up, or it ends with an answer.
  abbrev Ends : String → ℤ → History → Result (List Diagnostic) (Option Bool) × History → Type 0
  Ends id t h (r, h') =
      Polling id t h h'
      × (((r ≡ ok none) × GivesUp id t h) ⊎ ((b : Bool) × (r ≡ ok (some b)) × (¬ GivesUp id t h)))

  retry-Ends :
      (id : String) (t : ℤ) (h : History)
      → Ends id (timeout_in_minutes t) h (retry_cluster_not_found_with_timeout api 3 1 id t h)
  unfolding retry_cluster_not_found_with_timeout wait_till_cluster_is_not_found_with_timeout send
      or_again time_sleep gone_after
  retry-Ends id minutes h =
      let t = timeout_in_minutes minutes in
      elim (Polled-cases (api.on_poll h id t)) [
        | inr (b, answers, other) ↦ rw answers (inl refl, inr (b, refl, λ all. other all.0))
        | inl first ↦
            rw (ap gone_after first)
              (elim (Polled-cases (api.on_poll (sleep 1 ∷ once id t h) id t)) [
                | inr (b, answers, other) ↦
                    rw answers (inr (inl refl), inr (b, refl, λ all. other all.1))
                | inl second ↦
                    rw (ap gone_after second)
                      (elim (Polled-cases (api.on_poll (sleep 2 ∷ twice id t h) id t)) [
                        | inr (b, answers, other) ↦
                            rw answers (inr (inr refl), inr (b, refl, λ all. other all.2))
                        | inl third ↦
                            rw (ap gone_after third)
                              (inr (inr refl), inl (refl, (first, second, third)))
                      ])
              ])
      ]

  -- The timeout of the polls of a deletion, and the history after its request.
  abbrev pub timeout : DestroyState → ℤ
  timeout state = timeout_in_minutes (timeout_of state.destroy_timeout).1

  abbrev pub asked : DestroyState → History → History
  asked state h = delete_cluster (value_string state.id) ∷ h

  -- A deletion ends after its request, or with the polling.
  do_delete-Polling :
      (state : DestroyState) (h : History)
      → ((do_delete api state h).1 ≡ asked state h)
        ⊎ Polling (value_string state.id) (timeout state) (asked state h) (do_delete api state h).1
  unfolding do_delete send await_removal after_polls
  do_delete-Polling state h =
      let id = value_string state.id in
      let ends = retry-Ends id (timeout_of state.destroy_timeout).1 (asked state h) in
      elim (Reply-cases (api.on_delete h id)) [
        | inr (status, refused) ↦ rw refused (inl refl)
        | inl (done, accepted) ↦ rw accepted (elim (Bool-cases (is_waiting_disabled state)) [
          | inl disabled ↦ rw disabled (inl refl)
          | inr enabled ↦ rw enabled (elim ends.1 [
            | inl (failed, gives_up) ↦ rw failed (inr ends.0)
            | inr (true, answered, other) ↦ rw answered (inr ends.0)
            | inr (false, answered, other) ↦ rw answered (inr ends.0)
          ])
        ])
      ]

  -- Where the state's timeout is at most 153722867 minutes (more do not fit into a duration), a
  -- deletion adds three polls at most, each of this cluster and with a timeout above zero, and it sleeps
  -- for three minutes at most between them.
  pub destroy-IsBounded :
      (state : DestroyState) (h : History)
      → leb_ℤ (value_int64 state.destroy_timeout) max_minutes ≡ true
      → AllTimed (value_string state.id) h
      → let h' = (delete api state h).1 in
        AllTimed (value_string state.id) h' × (polls h' ≤ polls h + 3) × (slept h' ≤ slept h + 3)
  unfolding delete
  destroy-IsBounded state h fits timed =
      let high = timeout_of-positive state.destroy_timeout fits in
      elim (do_delete-Polling state h) [
        | inl none_left ↦ rw none_left (timed, omega arith, omega arith)
        | inr (inl one) ↦ rw one ((refl, high, timed), omega arith, omega arith)
        | inr (inr (inl two)) ↦ rw two ((refl, high, (refl, high, timed)), omega arith, omega arith)
        | inr (inr (inr three)) ↦
            rw three ((refl, high, (refl, high, (refl, high, timed))), omega arith, omega arith)
      ]

  -- A deletion removes the state exactly when the API accepts it, and either waiting is disabled in
  -- the state or not all of the three polls fail: an answer of any of them is enough, be it that the
  -- cluster is still there.
  pub destroy-removes_iff :
      (state : DestroyState) (h : History)
      → ((delete api state h).0.state ≡ removed) ↔ (
          (api.on_delete h (value_string state.id) ≡ success tt)
          × ((is_waiting_disabled state ≡ true)
              ⊎ (¬ GivesUp (value_string state.id) (timeout state) (asked state h))))
  unfolding delete do_delete send await_removal after_polls
  destroy-removes_iff state h =
      let id = value_string state.id in
      let ends = retry-Ends id (timeout_of state.destroy_timeout).1 (asked state h) in
      elim (Reply-cases (api.on_delete h id)) [
        | inr (status, refused) ↦ rw refused (ground arith)
        | inl (done, accepted) ↦ rw accepted (elim (Bool-cases (is_waiting_disabled state)) [
          | inl disabled ↦ rw disabled ((λ e. (refl, inl refl)), (λ e. refl))
          | inr enabled ↦ rw enabled (elim ends.1 [
            | inl (failed, gives_up) ↦ rw failed (
              (λ e. cc),
              (λ (a, b). elim b [ inl e ↦ cc | inr answered ↦ absurd (answered gives_up) ]),
            )
            | inr (true, answered, other) ↦ rw answered ((λ e. (refl, inr other)), (λ e. refl))
            | inr (false, answered, other) ↦ rw answered ((λ e. (refl, inr other)), (λ e. refl))
          ])
        ])
      ]
