-- ===== src/Quota/Counts.antt =====
-- What one media call of go/media_quota.go costs its subject.
use text.Mathlib.TextPositions.{eq_refl}
use erdai_agent.Prelude.{
  ℕ, suc, ◌+◌, ◌≤◌, ◌<◌, ltb, true, false, if◌then◌else◌, ◌≡◌, refl, arith, List, [], ◌∷◌, All, inl,
  inr, ◌⊎◌, Bool-cases, subst, sym, ap, str_eq, eq_iff, ltb→lt,
}
use erdai_agent.Core.{Stamp, ok, err, ◌>>=◌, >>=-eq-ok, conflict}
use erdai_agent.Quota.Store.{
  Kind, image, video, same_media, UsageKey, Usage, same_usage, active, update_usage, count_usage,
}
use erdai_agent.Quota.Usage.{upsert, reserve_row}

-- the primary key of `media_quota_usage`
abbrev pub KeyedUsage : List Usage → Type 0
KeyedUsage [] = Unit {0}
KeyedUsage (u ∷ us) = All (λ w. same_usage u.key w.key ≡ false) us × KeyedUsage us

-- the used and the reserved units of a key
unfoldable pub counts : UsageKey → List Usage → ℕ × ℕ
counts k [] = (0, 0)
counts k (u ∷ us) =
    let rest = counts k us in if same_usage u.key k then (u.used, u.reserved) else rest

same_usage-eq : (a b : UsageKey) → same_usage a b ≡ true → a ≡ b
same_usage-eq a b h =
    let p : str_eq a.subject b.subject ≡ true = ground arith in
    let q : str_eq a.day b.day ≡ true = ground arith in
    let r : same_media a.kind b.kind ≡ true = ground arith in
    λ i. record {
      subject = (eq_iff a.subject b.subject).0 p i;
      day = (eq_iff a.day b.day).0 q i;
      kind = same_media-eq a.kind b.kind r i;
    }
  where
    same_media-eq : (x y : Kind) → same_media x y ≡ true → x ≡ y
    same_media-eq image image h = refl
    same_media-eq video video h = refl
    same_media-eq image video h = cc
    same_media-eq video image h = cc

same_media_refl : (k : Kind) → same_media k k ≡ true
same_media_refl image = refl
same_media_refl video = refl

same_usage_refl : (k : UsageKey) → same_usage k k ≡ true
same_usage_refl k = rw (eq_refl k.subject, eq_refl k.day, same_media_refl k.kind)

-- a reservation adds one reserved unit to its key and nothing to another
pub upsert-counts :
    (now : Stamp) (ceiling : ℕ) (k : UsageKey) (us : List Usage) {us' : List Usage}
    → upsert now ceiling k us ≡ ok us'
    → (counts k us' ≡ ((counts k us).0, suc (counts k us).1))
      × ((j : UsageKey) → same_usage k j ≡ false → counts j us' ≡ counts j us)
unfolding upsert counts
upsert-counts now ceiling k [] {us'} h =
    let q : us' ≡ record { key = k; used = 0; reserved = 1; updated_at = now } ∷ [] =
      ground arith in
    (
      subst (λ v. counts k v ≡ (0, 1)) (sym q) (rw (same_usage_refl k) refl),
      λ j n. subst (λ v. counts j v ≡ (0, 0)) (sym q) (rw n refl),
    )
upsert-counts now ceiling k (u ∷ us) {us'} h = elim (Bool-cases (same_usage u.key k)) [
  | inl y ↦ elim (Bool-cases (ltb (u.used + u.reserved) ceiling)) [
    | inl l ↦
        let q : us' ≡ record u { reserved = suc u.reserved; updated_at = now } ∷ us =
          ground arith in
        let e = same_usage-eq u.key k y in
        (
          subst (λ v. counts k v ≡ ((counts k (u ∷ us)).0, suc (counts k (u ∷ us)).1)) (sym q)
              (rw y refl),
          λ j n.
              let n' : same_usage u.key j ≡ false = subst (λ m. same_usage m j ≡ false) (sym e) n in
              subst (λ v. counts j v ≡ counts j (u ∷ us)) (sym q) (rw n' refl),
        )
    | inr m ↦ absurd (ground arith)
  ]
  | inr n ↦
      let h' : (upsert now ceiling k us >>= λ rest. ok (u ∷ rest)) ≡ ok us' = rw n at h in
      let (rest, p, h₁) = >>=-eq-ok (upsert now ceiling k us) (λ rest. ok (u ∷ rest)) h' in
      let q : us' ≡ u ∷ rest = ground arith in
      let (a, o) = upsert-counts now ceiling k us p in
      (
        subst (λ v. counts k v ≡ ((counts k (u ∷ us)).0, suc (counts k (u ∷ us)).1)) (sym q)
            (rw n a),
        λ j m.
            subst (λ v. counts j v ≡ counts j (u ∷ us)) (sym q)
              (elim (Bool-cases (same_usage u.key j)) [ inl y ↦ rw y refl | inr z ↦ rw z (o j m) ]),
      )
]

omega_le : (ceiling n : ℕ) → ltb 0 ceiling ≡ false → ceiling ≤ n
omega_le ceiling n h = ground arith

upsert-full :
    (now : Stamp) (ceiling : ℕ) (k : UsageKey) (us : List Usage)
    → ltb 0 ceiling ≡ true
    → ((us' : List Usage) × (upsert now ceiling k us ≡ ok us')
        × ((counts k us).0 + (counts k us).1 < ceiling))
      ⊎ ((upsert now ceiling k us ≡ err (conflict "daily quota exceeded"))
          × (ceiling ≤ (counts k us).0 + (counts k us).1))
unfolding upsert counts
upsert-full now ceiling k [] z = inl (_, refl, ltb→lt 0 ceiling z)
upsert-full now ceiling k (u ∷ us) z = elim (Bool-cases (same_usage u.key k)) [
  | inl y ↦ elim (Bool-cases (ltb (u.used + u.reserved) ceiling)) [
    | inl l ↦ inl (
      record u { reserved = suc u.reserved; updated_at = now } ∷ us,
      rw (y, l) refl,
      rw y (ltb→lt _ _ l),
    )
    | inr m ↦ inr (rw (y, m) refl, rw y (ground arith))
  ]
  | inr n ↦ elim (upsert-full now ceiling k us z) [
    | inl (us', p, l) ↦ inl (u ∷ us', rw (n, p) refl, rw n l)
    | inr (p, l) ↦ inr (rw (n, p) refl, rw n l)
  ]
]

-- a reservation is refused exactly when the units of its key have reached the limit
pub reserve_row-full :
    (now : Stamp) (ceiling : ℕ) (k : UsageKey) (us : List Usage)
    → ((us' : List Usage) × (reserve_row now ceiling k us ≡ ok us')
        × ((counts k us).0 + (counts k us).1 < ceiling))
      ⊎ ((reserve_row now ceiling k us ≡ err (conflict "daily quota exceeded"))
          × (ceiling ≤ (counts k us).0 + (counts k us).1))
unfolding reserve_row
reserve_row-full now ceiling k us = elim (Bool-cases (ltb 0 ceiling)) [
  | inr n ↦ inr (rw n refl, omega_le ceiling ((counts k us).0 + (counts k us).1) n)
  | inl y ↦ elim (upsert-full now ceiling k us y) [
    | inl (us', p, l) ↦ inl (us', rw y p, l)
    | inr (p, l) ↦ inr (rw y p, l)
  ]
]

apart-upsert :
    (now : Stamp) (ceiling : ℕ) (k j : UsageKey) (us : List Usage) {us' : List Usage}
    → same_usage j k ≡ false
    → upsert now ceiling k us ≡ ok us'
    → All (λ w. same_usage j w.key ≡ false) us
    → All (λ w. same_usage j w.key ≡ false) us'
unfolding upsert
apart-upsert now ceiling k j [] {us'} n h v =
    let q : us' ≡ record { key = k; used = 0; reserved = 1; updated_at = now } ∷ [] =
      ground arith in
    subst (All (λ w. same_usage j w.key ≡ false)) (sym q) (n, tt)
apart-upsert now ceiling k j (u ∷ us) {us'} n h v = elim (Bool-cases (same_usage u.key k)) [
  | inl y ↦ elim (Bool-cases (ltb (u.used + u.reserved) ceiling)) [
    | inl l ↦
        let q : us' ≡ record u { reserved = suc u.reserved; updated_at = now } ∷ us =
          ground arith in
        subst (All (λ w. same_usage j w.key ≡ false)) (sym q) v
    | inr m ↦ absurd (ground arith)
  ]
  | inr z ↦
      let h' : (upsert now ceiling k us >>= λ rest. ok (u ∷ rest)) ≡ ok us' = rw z at h in
      let (rest, p, h₁) = >>=-eq-ok (upsert now ceiling k us) (λ rest. ok (u ∷ rest)) h' in
      let q : us' ≡ u ∷ rest = ground arith in
      subst (All (λ w. same_usage j w.key ≡ false)) (sym q)
        (v.0, apart-upsert now ceiling k j us n p v.1)
]

pub Keyed-upsert :
    (now : Stamp) (ceiling : ℕ) (k : UsageKey) (us : List Usage) {us' : List Usage}
    → upsert now ceiling k us ≡ ok us'
    → KeyedUsage us
    → KeyedUsage us'
unfolding upsert
Keyed-upsert now ceiling k [] {us'} h v =
    let q : us' ≡ record { key = k; used = 0; reserved = 1; updated_at = now } ∷ [] =
      ground arith in
    subst KeyedUsage (sym q) (tt, tt)
Keyed-upsert now ceiling k (u ∷ us) {us'} h v = elim (Bool-cases (same_usage u.key k)) [
  | inl y ↦ elim (Bool-cases (ltb (u.used + u.reserved) ceiling)) [
    | inl l ↦
        let q : us' ≡ record u { reserved = suc u.reserved; updated_at = now } ∷ us =
          ground arith in
        subst KeyedUsage (sym q) v
    | inr m ↦ absurd (ground arith)
  ]
  | inr n ↦
      let h' : (upsert now ceiling k us >>= λ rest. ok (u ∷ rest)) ≡ ok us' = rw n at h in
      let (rest, p, h₁) = >>=-eq-ok (upsert now ceiling k us) (λ rest. ok (u ∷ rest)) h' in
      let q : us' ≡ u ∷ rest = ground arith in
      subst KeyedUsage (sym q)
        (apart-upsert now ceiling k u.key us n p v.0, Keyed-upsert now ceiling k us p v.1)
]

same_usage_sym : (b a : UsageKey) → same_usage b a ≡ false → same_usage a b ≡ false
same_usage_sym b a h = elim (Bool-cases (same_usage a b)) [
  | inl y ↦
      let e = same_usage-eq a b y in
      let r = subst (λ m. same_usage b m ≡ false) e h in let t = same_usage_refl b in cc
  | inr n ↦ n
]

none_active :
    (k : UsageKey) (us : List Usage)
    → All (λ w. same_usage k w.key ≡ false) us
    → count_usage (active k) us ≡ 0
unfolding count_usage
none_active k [] h = refl
none_active k (u ∷ us) h = let n = same_usage_sym k u.key h.0 in rw n (none_active k us h.1)

update_none :
    (k : UsageKey) (f : Usage → Usage) (us : List Usage)
    → All (λ w. same_usage k w.key ≡ false) us
    → update_usage (active k) f us ≡ us
unfolding update_usage
update_none k f [] h = refl
update_none k f (u ∷ us) h =
    let n = same_usage_sym k u.key h.0 in rw n (ap (λ vs. u ∷ vs) (update_none k f us h.1))

-- a statement on the one active row of a key
pub settle-counts :
    (k : UsageKey) (f : Usage → Usage) (m : ℕ → ℕ → ℕ × ℕ)
    → ((u : Usage) → (f u).key ≡ u.key)
    → ((u : Usage) → ((f u).used, (f u).reserved) ≡ m u.used u.reserved)
    → (us : List Usage) (r : ℕ) → KeyedUsage us
    → (counts k us).1 ≡ suc r
    → (count_usage (active k) us ≡ 1)
      × (counts k (update_usage (active k) f us) ≡ m (counts k us).0 (counts k us).1)
      × ((j : UsageKey)
          → same_usage k j ≡ false
          → counts j (update_usage (active k) f us) ≡ counts j us)
unfolding counts count_usage update_usage
settle-counts k f m kf df [] r v h = cc
settle-counts k f m kf df (u ∷ us) r v h = elim (Bool-cases (same_usage u.key k)) [
  | inl y ↦
      let a : ltb 0 u.reserved ≡ true = ground arith in
      let e = same_usage-eq u.key k y in
      let none = none_active k us (subst (λ i. All (λ w. same_usage i w.key ≡ false) us) e v.0) in
      let y' : same_usage (f u).key k ≡ true = subst (λ i. same_usage i k ≡ true) (sym (kf u)) y in
      (
        rw (y, a) (ap suc none),
        rw (y, a) (rw y' (df u)),
        λ j n.
            let n' : same_usage u.key j ≡ false = subst (λ i. same_usage i j ≡ false) (sym e) n in
            let n'' : same_usage (f u).key j ≡ false =
              subst (λ i. same_usage i j ≡ false) (sym (kf u)) n' in
            rw (y, a)
              (rw (n', n'')
                (ap (counts j) (
                  update_none k f us
                    (subst (λ i. All (λ w. same_usage i w.key ≡ false) us) e v.0)))),
      )
  | inr n ↦
      let (c, d, o) = settle-counts k f m kf df us r v.1 (ground arith) in
      (
        rw n c,
        rw n (rw n d),
        λ j z. elim (Bool-cases (same_usage u.key j)) [
          | inl y ↦ rw (n, y) refl
          | inr x ↦ rw (n, x) (o j z)
        ],
      )
]
