-- ===== src/Http/Handlers/Newest.antt =====
-- The subscription that CreateSubscription answers with.
use eventmesh_go.Prelude.{
  ℕ, ◌≤◌, Str, str_eq, str_eq_iff, true, Bool-cases, Option, none, some, List, [], ◌∷◌, ◌≡◌, refl,
  ap, ◌∙◌, sym, In, inl, inr, ◌⊎◌, ltb, ltb→lt, if◌then◌else◌, arith,
}
use eventmesh_go.Http.Requests.{SubscriptionInfo}
use eventmesh_go.Http.Handlers.{newest_for, newer}

-- A subscription for the topic, of the list or the one so far.
abbrev Candidate : Str → List SubscriptionInfo → Option SubscriptionInfo → SubscriptionInfo → Type 0
Candidate topic subs created sub = (In sub subs × (sub.topic ≡ topic)) ⊎ (created ≡ some sub)

newer-not_older :
    (sub best : SubscriptionInfo) (created : Option SubscriptionInfo)
    → created ≡ some best
    → (chosen : SubscriptionInfo) × (newer sub created ≡ some chosen)
      × (best.created_at ≤ chosen.created_at)
      × (sub.created_at ≤ chosen.created_at)
newer-not_older sub best none h = absurd (cc h)
newer-not_older sub best (some b) h =
    let e : b ≡ best = some_eq b best h in
    elim (Bool-cases (ltb b.created_at sub.created_at)) [
      | inl later ↦ (
        sub,
        rw later,
        omega (arith, ltb→lt _ _ later, ap (λ (s : SubscriptionInfo). s.created_at) e),
        omega arith,
      )
      | inr earlier ↦ (
        b,
        rw earlier,
        omega (arith, ap (λ (s : SubscriptionInfo). s.created_at) e),
        ground arith,
      )
    ]
  where
    some_eq :
        (b best : SubscriptionInfo)
        → ◌≡◌ {A = Option SubscriptionInfo} (some b) (some best)
        → b ≡ best
    some_eq b best h = cc h

newer-some :
    (sub : SubscriptionInfo) (created : Option SubscriptionInfo)
    → (chosen : SubscriptionInfo) × (newer sub created ≡ some chosen)
      × (sub.created_at ≤ chosen.created_at)
      × ((chosen ≡ sub) ⊎ (created ≡ some chosen))
newer-some sub none = (sub, refl, omega arith, inl refl)
newer-some sub (some b) = elim (Bool-cases (ltb b.created_at sub.created_at)) [
  | inl later ↦ (sub, rw later, omega arith, inl refl)
  | inr earlier ↦ (b, rw earlier, ground arith, inr refl)
]

-- The result is at least as new as a candidate in the accumulator.
newest_for-above :
    (topic : Str) (subs : List SubscriptionInfo) (created : Option SubscriptionInfo)
    (best found : SubscriptionInfo)
    → created ≡ some best
    → newest_for topic subs created ≡ some found
    → best.created_at ≤ found.created_at
unfolding newest_for
newest_for-above topic [] created best found h k =
    let same : ◌≡◌ {A = Option SubscriptionInfo} (some best) (some found) = sym h ∙ k in
    omega (arith, ap at same)
  where
    at : Option SubscriptionInfo → ℕ
    at none = 0
    at (some s) = s.created_at
newest_for-above topic (sub ∷ subs) created best found h k =
    elim (Bool-cases (str_eq sub.topic topic)) [
      | inl same ↦
          let (chosen, is_chosen, above, _) = newer-not_older sub best created h in
          omega (
            arith,
            above,
            newest_for-above topic subs (newer sub created) chosen found is_chosen (rw same at k),
          )
      | inr other ↦ newest_for-above topic subs created best found h (rw other at k)
    ]

newest_for-all :
    (topic : Str) (subs : List SubscriptionInfo) (created : Option SubscriptionInfo)
    (sub found : SubscriptionInfo)
    → newest_for topic subs created ≡ some found
    → In sub subs
    → sub.topic ≡ topic
    → sub.created_at ≤ found.created_at
unfolding newest_for
newest_for-all topic [] created sub found k h e = absurd h
newest_for-all topic (first ∷ subs) created sub found k (inl same_sub) e =
    let matches : str_eq first.topic topic ≡ true =
      (str_eq_iff first.topic topic).1 (ap (λ (s : SubscriptionInfo). s.topic) same_sub ∙ e) in
    let (chosen, is_chosen, above, _) = newer-some first created in
    omega (
      arith,
      above,
      ap (λ (s : SubscriptionInfo). s.created_at) same_sub,
      newest_for-above topic subs (newer first created) chosen found is_chosen (rw matches at k),
    )
newest_for-all topic (first ∷ subs) created sub found k (inr h) e =
    newest_for-all topic subs (if str_eq first.topic topic then newer first created else created)
      sub found k h e

newest_for-from :
    (topic : Str) (subs : List SubscriptionInfo) (created : Option SubscriptionInfo)
    (found : SubscriptionInfo)
    → newest_for topic subs created ≡ some found
    → Candidate topic subs created found
unfolding newest_for
newest_for-from topic [] created found k = inr k
newest_for-from topic (first ∷ subs) created found k =
    elim (Bool-cases (str_eq first.topic topic)) [
      | inr other ↦ elim (newest_for-from topic subs created found (rw other at k)) [
        | inl (h, e) ↦ inl (inr h, e)
        | inr e ↦ inr e
      ]
      | inl same ↦ elim (newest_for-from topic subs (newer first created) found (rw same at k)) [
        | inl (h, e) ↦ inl (inr h, e)
        | inr e ↦ was_newer (newer-some first created) e same
      ]
    ]
  where
    was_newer :
        ((chosen : SubscriptionInfo) × (newer first created ≡ some chosen)
          × (first.created_at ≤ chosen.created_at)
          × ((chosen ≡ first) ⊎ (created ≡ some chosen)))
        → newer first created ≡ some found
        → str_eq first.topic topic ≡ true
        → Candidate topic (first ∷ subs) created found
    was_newer (chosen, is_chosen, above, inl is_first) e same =
        let is_found : found ≡ first = cc (e, is_chosen, is_first) in
        inl (
          inl (sym is_found),
          ap (λ (s : SubscriptionInfo). s.topic) is_found ∙ (str_eq_iff first.topic topic).0 same,
        )
    was_newer (chosen, is_chosen, above, inr before) e same = inr (before ∙ sym is_chosen ∙ e)

-- If the loop over a client's subscriptions finds one for the topic, it stands in the list, is for
-- that topic, and no subscription of the list for that topic was created later.
pub newest_for_lem :
    (topic : Str) (subs : List SubscriptionInfo) (found : SubscriptionInfo)
    → newest_for topic subs none ≡ some found
    → In found subs
      × (found.topic ≡ topic)
      × ((sub : SubscriptionInfo)
          → In sub subs
          → sub.topic ≡ topic
          → sub.created_at ≤ found.created_at)
newest_for_lem topic subs found k = elim (newest_for-from topic subs none found k) [
  | inl (h, e) ↦ (h, e, λ sub s t. newest_for-all topic subs none sub found k s t)
  | inr e ↦ absurd (cc e)
]
