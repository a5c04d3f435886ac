-- ===== src/Tracker/Supervisor/Tries.antt =====
-- In which order the trackers of bt/src/tracker/tracker_supervisor.rs get their turn, if each reports
-- once before the next.
use rust_torrent_client.Prelude.{
  ◌≡◌, ◌↔◌, refl, sym, ap, subst, ◌∙◌, List, [], ◌∷◌, ◌++◌, append_assoc, append-nil, Bool, true,
  false, Bool-cases, inl, inr, not, any, if◌then◌else◌, All, arith,
}
use rust_torrent_client.Tracker.Supervisor.{
  Report, TrackerSupervisor, is_active, status_of, url_of, is_one_active, insert_state, has_state,
  spawn_tracker, try_urls, try_another_tracker, insert_report, wait_on_tracker_msg,
}

module _ {Url : Type 0} (url_eq : Url → Url → Bool)
    (url_eq_iff : (x y : Url) → (url_eq x y ≡ true) ↔ (x ≡ y)) where
  abbrev has_url : Url → List Url → Bool
  has_url url urls = any (url_eq url) urls

  abbrev pub Distinct : List Url → Type 0
  Distinct [] = Unit
  Distinct (url ∷ urls) = (has_url url urls ≡ false) × Distinct urls

  -- No status of a report is that of an active tracker, and the reports are those of the urls.
  abbrev pub InactiveReports : List Url → List (Report Url) → Type 0
  InactiveReports [] [] = Unit
  InactiveReports (url ∷ urls) (report ∷ reports) =
      (url_of report ≡ url) × (is_active (status_of report) ≡ false) × InactiveReports urls reports
  InactiveReports _ _ = ⊥

  has_state-insert_state :
      (url : Url) (report : Report Url) (states : List (Report Url))
      → has_state url_eq url (insert_state url_eq report states)
        ≡ (if url_eq url (url_of report) then true else has_state url_eq url states)
  unfolding insert_state
  has_state-insert_state url report [] = refl
  has_state-insert_state url report (state ∷ states) =
      elim (Bool-cases (url_eq (url_of report) (url_of state))) [
        | inl same ↦
            let is = (url_eq_iff (url_of report) (url_of state)).0 same in
            rw same (rw (← is) (ground arith))
        | inr other ↦ rw other (ground (arith, has_state-insert_state url report states))
      ]

  inactive-insert_state :
      (report : Report Url) (states : List (Report Url))
      → any (λ state. is_active (status_of state)) states ≡ false
      → is_active (status_of report) ≡ false
      → any (λ state. is_active (status_of state)) (insert_state url_eq report states) ≡ false
  unfolding insert_state
  inactive-insert_state report [] h e = rw e
  inactive-insert_state report (state ∷ states) h e =
      elim (Bool-cases (url_eq (url_of report) (url_of state))) [
        | inl same ↦ rw same (ground (arith, h, e))
        | inr other ↦
            rw other (ground (arith, h, inactive-insert_state report states (ground (arith, h)) e))
      ]

  url_eq_refl : (url : Url) → url_eq url url ≡ true
  url_eq_refl url = (url_eq_iff url url).1 refl

  has_url-append :
      (url : Url) (xs ys : List Url)
      → has_url url (xs ++ ys) ≡ (if has_url url xs then true else has_url url ys)
  has_url-append url [] ys = refl
  has_url-append url (x ∷ xs) ys = ground (arith, has_url-append url xs ys)

  has_url-middle : (url : Url) (xs ys : List Url) → has_url url (xs ++ url ∷ ys) ≡ true
  has_url-middle url xs ys = ground (arith, has_url-append url xs (url ∷ ys), url_eq_refl url)

  -- Of urls that are distinct, one is none of those before it.
  Distinct-before :
      (url : Url) (xs ys : List Url) → Distinct (xs ++ url ∷ ys) → has_url url xs ≡ false
  Distinct-before url [] ys d = refl
  Distinct-before url (x ∷ xs) ys d = elim (Bool-cases (url_eq url x)) [
    | inl same ↦
        let is = (url_eq_iff url x).0 same in
        let found : has_url x (xs ++ url ∷ ys) ≡ true =
          subst (λ v. has_url v (xs ++ url ∷ ys) ≡ true) is (has_url-middle url xs ys) in
        cc (d.0, found)
    | inr other ↦ rw other (Distinct-before url xs ys d.1)
  ]

  urls_found : (xs ys : List Url) → All (λ url. has_url url (xs ++ ys) ≡ true) ys
  urls_found xs [] = tt
  urls_found xs (y ∷ ys) = (
    has_url-middle y xs ys,
    subst (λ l. All (λ url. has_url url l ≡ true) ys) (append_assoc xs (y ∷ []) ys)
        (urls_found (xs ++ y ∷ []) ys),
  )

  -- The states are those of the urls `done`.
  abbrev pub Covers : List Url → TrackerSupervisor Url → Type 0
  Covers done s = (url : Url) → has_state url_eq url s.tracker_states ≡ has_url url done

  try_urls-settled :
      (urls : List Url) (s : TrackerSupervisor Url)
      → All (λ url. has_state url_eq url s.tracker_states ≡ true) urls
      → try_urls url_eq urls s ≡ s
  unfolding try_urls
  try_urls-settled [] s h = refl
  try_urls-settled (url ∷ urls) s h = rw h.0 (try_urls-settled urls s h.1)

  try_urls-first :
      (urls rest : List Url) (url : Url) (s : TrackerSupervisor Url)
      → All (λ url. has_state url_eq url s.tracker_states ≡ true) urls
      → has_state url_eq url s.tracker_states ≡ false
      → try_urls url_eq (urls ++ url ∷ rest) s ≡ spawn_tracker url_eq url s
  unfolding try_urls
  try_urls-first [] rest url s h fresh = rw fresh
  try_urls-first (x ∷ urls) rest url s h fresh = rw h.0 (try_urls-first urls rest url s h.1 fresh)

  All-covered :
      (done urls : List Url) (s : TrackerSupervisor Url)
      → Covers done s
      → All (λ url. has_url url done ≡ true) urls
      → All (λ url. has_state url_eq url s.tracker_states ≡ true) urls
  All-covered done [] s c h = tt
  All-covered done (url ∷ urls) s c h = (c url ∙ h.0, All-covered done urls s c h.1)

  insert_report-Covers :
      (done : List Url) (report : Report Url) (s : TrackerSupervisor Url)
      → Covers done s
      → Covers (done ++ url_of report ∷ []) (insert_report url_eq report s)
  unfolding insert_report
  insert_report-Covers done report s c url = ground (
    arith,
    has_state-insert_state url report s.tracker_states,
    has_url-append url done (url_of report ∷ []),
    c url,
  )

  -- If the urls are distinct, the trackers of the urls before `url` have reported, no status so far
  -- is active, and then `url` and the urls after it report once each, in their order, none active,
  -- then the trackers of all urls after `url` have been started, each once and in that order.
  pub wait_on_tracker_msg-spawned :
      (rest done : List Url) (url : Url) (reports : List (Report Url)) (s : TrackerSupervisor Url)
      → s.urls ≡ done ++ url ∷ rest
      → Distinct s.urls
      → Covers done s
      → is_one_active s ≡ false
      → InactiveReports (url ∷ rest) reports
      → (wait_on_tracker_msg url_eq reports s).spawned ≡ s.spawned ++ rest
  unfolding wait_on_tracker_msg try_another_tracker is_one_active spawn_tracker insert_report
  wait_on_tracker_msg-spawned rest done url [] s at d c quiet r = absurd r
  wait_on_tracker_msg-spawned [] done url (report ∷ []) s at d c quiet (is, idle, r) =
      let s_1 = insert_report url_eq report s in
      let covered : Covers (done ++ url ∷ []) s_1 =
        subst (λ u. Covers (done ++ u ∷ []) s_1) is (insert_report-Covers done report s c) in
      let settled : try_urls url_eq s.urls s_1 ≡ s_1 =
        ap (λ urls. try_urls url_eq urls s_1) at
        ∙ try_urls-settled (done ++ url ∷ []) s_1 (
            All-covered (done ++ url ∷ []) (done ++ url ∷ []) s_1 covered
              (urls_found [] (done ++ url ∷ []))) in
      rw (inactive-insert_state report s.tracker_states quiet idle)
        (rw settled (sym (append-nil s.spawned)))
  wait_on_tracker_msg-spawned [] done url (report ∷ more ∷ reports) s at d c quiet (is, idle, r) =
      absurd r
  wait_on_tracker_msg-spawned (next ∷ rest) done url (report ∷ reports) s at d c quiet
        (is, idle, r) =
      let s_1 = insert_report url_eq report s in
      let covered : Covers (done ++ url ∷ []) s_1 =
        subst (λ u. Covers (done ++ u ∷ []) s_1) is (insert_report-Covers done report s c) in
      let split : s.urls ≡ (done ++ url ∷ []) ++ next ∷ rest =
        at ∙ sym (append_assoc done (url ∷ []) (next ∷ rest)) in
      let fresh =
        covered next ∙ Distinct-before next (done ++ url ∷ []) rest (subst Distinct split d) in
      let spawned : try_urls url_eq s.urls s_1 ≡ spawn_tracker url_eq next s_1 =
        ap (λ urls. try_urls url_eq urls s_1) split
        ∙ try_urls-first (done ++ url ∷ []) rest next s_1
            (All-covered (done ++ url ∷ []) (done ++ url ∷ []) s_1 covered
              (urls_found [] (done ++ url ∷ [])))
            fresh in
      let step : (if not (is_one_active s_1) then try_another_tracker url_eq s_1 else s_1)
          ≡ spawn_tracker url_eq next s_1 =
        rw (inactive-insert_state report s.tracker_states quiet idle) spawned in
      ap (λ x. (wait_on_tracker_msg url_eq reports x).spawned) step
      ∙ wait_on_tracker_msg-spawned rest (done ++ url ∷ []) next reports
          (spawn_tracker url_eq next s_1) split d covered
          (inactive-insert_state report s.tracker_states quiet idle) r
      ∙ append_assoc s.spawned (next ∷ []) rest
