-- ===== src/Pool/Weights.antt =====
-- What one selection does to the running weights
-- (src/provider/account-pool/strategies/weighted-round-robin.strategy.ts).
use model_hub.Common.{
  String, List, [], ◌∷◌, true, false, Option, none, some, ◌≡◌, refl, sym, ap, ◌∙◌, subst, arith,
  inl, inr, ◌⊎◌, str_eq, str_eq_iff, str_eq_refl, if◌then◌else◌, Bool-cases,
}
use model_hub.Common.Int.{ℤ, pos, ◌+ℤ◌, ◌-ℤ◌, ◌≤ℤ◌, ltb_ℤ, leb_ℤ, int_laws}
use model_hub.Common.OrderedMap.{contains, contains-eq, Distinct, set_key, get-set_key}
use model_hub.Pool.{
  AccountEntry, weight_of, Weights, current, or_zero, total_weight, better, scan, settle_winner,
  select,
}

abbrev pub ids : List AccountEntry → List String
ids [] = []
ids (a ∷ rest) = a.id ∷ ids rest

-- The weight that a list gives to an id: that of its account, and nothing elsewhere.
abbrev pub share : String → List AccountEntry → ℤ
share i [] = pos 0
share i (a ∷ rest) = if str_eq a.id i then weight_of a else share i rest

pub current-set_key :
    (k i : String) (w : ℤ) (ws : Weights)
    → current i (set_key k w ws) ≡ (if str_eq k i then w else current i ws)
current-set_key k i w ws = rw (get-set_key k i w ws, or_zero) (ground arith)

current-eq : (k i : String) (ws : Weights) → str_eq k i ≡ true → current k ws ≡ current i ws
current-eq k i ws h = ap (λ j. current j ws) ((str_eq_iff k i).0 h)

share-missing :
    (i : String) (rest : List AccountEntry) → contains i (ids rest) ≡ false → share i rest ≡ pos 0
share-missing i [] h = refl
share-missing i (a ∷ rest) h = ground (arith, share-missing i rest)

-- The loop adds to every weight its share.
pub current-scan :
    (rest : List AccountEntry) (best : Option (AccountEntry × ℤ)) (ws : Weights) (i : String)
    → Distinct (ids rest)
    → current i (scan rest best ws).1 ≡ current i ws +ℤ share i rest
unfolding scan
current-scan [] best ws i d = grind int_laws
current-scan (a ∷ rest) best ws i (once, d) =
    let cw = current a.id ws +ℤ weight_of a in
    current-scan rest (some (better a cw best)) (set_key a.id cw ws) i d
    ∙ elim (Bool-cases (str_eq a.id i)) [
      | inl same ↦
          rw
            (
              current-set_key a.id i cw ws,
              same,
              share-missing i rest (sym (contains-eq a.id i (ids rest) same) ∙ once),
              current-eq a.id i ws same,
            )
            (grind int_laws)
      | inr other ↦ rw (current-set_key a.id i cw ws, other) refl
    ]

-- The winner of a run of the loop that starts with a best account.
pub record IsWinner (rest : List AccountEntry) (b : AccountEntry) (best : ℤ) (ws : Weights)
    (c : AccountEntry) (cw : ℤ) : Type 0 where
  pub wins : (scan rest (some (b, best)) ws).0 ≡ some (c, cw)
  pub above : best ≤ℤ cw
  pub highest :
      (i : String)
      → contains i (ids rest) ≡ true
      → current i (scan rest (some (b, best)) ws).1 ≤ℤ cw
  pub member :
      ((c ≡ b) × (cw ≡ best))
      ⊎ ((contains c.id (ids rest) ≡ true) × (cw ≡ current c.id (scan rest (some (b, best)) ws).1))

-- The account that enters a turn of the loop ends at its weight in that turn.
current-scan_self :
    (a : AccountEntry) (rest : List AccountEntry) (best : Option (AccountEntry × ℤ)) (cw : ℤ)
    (ws : Weights)
    → Distinct (ids (a ∷ rest))
    → current a.id (scan rest best (set_key a.id cw ws)).1 ≡ cw
current-scan_self a rest best cw ws (once, d) =
    current-scan rest best (set_key a.id cw ws) a.id d
    ∙ rw (current-set_key a.id a.id cw ws, str_eq_refl a.id, share-missing a.id rest once)
        (grind int_laws)

-- One turn, whoever is best after it.
IsWinner-turn :
    (a : AccountEntry) (rest : List AccountEntry) (b : AccountEntry) (best : ℤ) (ws : Weights)
    (x : AccountEntry) (xw : ℤ) (c : AccountEntry) (top : ℤ)
    → Distinct (ids (a ∷ rest))
    → better a (current a.id ws +ℤ weight_of a) (some (b, best)) ≡ (x, xw)
    → best ≤ℤ xw
    → (current a.id ws +ℤ weight_of a) ≤ℤ xw
    → ((x ≡ b) × (xw ≡ best)) ⊎ ((x ≡ a) × (xw ≡ current a.id ws +ℤ weight_of a))
    → IsWinner rest x xw (set_key a.id (current a.id ws +ℤ weight_of a) ws) c top
    → IsWinner (a ∷ rest) b best ws c top
unfolding scan
IsWinner-turn a rest b best ws x xw c top d eq up high who w =
    let cw = current a.id ws +ℤ weight_of a in
    let after = set_key a.id cw ws in
    let run : scan (a ∷ rest) (some (b, best)) ws ≡ scan rest (some (x, xw)) after =
      ap (λ p. scan rest (some p) after) eq in
    let own = current-scan_self a rest (some (x, xw)) cw ws d in
    record {
      wins = ap (λ r. r.0) run ∙ w.wins;
      above = (let up2 = w.above in omega arith);
      highest = λ i h.
          subst (λ r. current i r.1 ≤ℤ top) (sym run)
            (elim (Bool-cases (str_eq a.id i)) [
              | inl same ↦
                  subst (λ j. current j (scan rest (some (x, xw)) after).1 ≤ℤ top)
                    ((str_eq_iff a.id i).0 same)
                    (subst (λ z. z ≤ℤ top) (sym own) (let up2 = w.above in omega arith))
              | inr other ↦ w.highest i (ground arith)
            ]);
      member = elim w.member [
        | inr (inside, is) ↦
            inr (ground (arith, inside), subst (λ r. top ≡ current c.id r.1) (sym run) is)
        | inl (same, is) ↦ elim who [
          | inl (old, kept) ↦ inl (same ∙ old, is ∙ kept)
          | inr (new, taken) ↦ inr (
            subst (λ y. contains y.id (ids (a ∷ rest)) ≡ true) (sym (same ∙ new))
                (rw (str_eq_refl a.id) refl),
            subst (λ r. top ≡ current c.id r.1) (sym run)
                (subst (λ y. top ≡ current y.id (scan rest (some (x, xw)) after).1)
                  (sym (same ∙ new)) (is ∙ (taken ∙ sym own))),
          )
        ]
      ];
    }

scan-IsWinner :
    (rest : List AccountEntry) (b : AccountEntry) (best : ℤ) (ws : Weights)
    → Distinct (ids rest)
    → (c : AccountEntry) × (cw : ℤ) × IsWinner rest b best ws c cw
unfolding scan
scan-IsWinner [] b best ws d = (
  b,
  best,
  record { wins = refl; above = omega arith; highest = λ i h. cc; member = inl (refl, refl) },
)
scan-IsWinner (a ∷ rest) b best ws (once, d) =
    let cw = current a.id ws +ℤ weight_of a in
    let after = set_key a.id cw ws in
    elim (Bool-cases (ltb_ℤ best cw)) [
      | inl higher ↦
          let (c, top, w) = scan-IsWinner rest a cw after d in
          (
            c,
            top,
            IsWinner-turn a rest b best ws a cw c top (once, d) (rw (higher) refl) (ground arith)
                (omega arith) (inr (refl, refl)) w,
          )
      | inr lower ↦
          let (c, top, w) = scan-IsWinner rest b best after d in
          (
            c,
            top,
            IsWinner-turn a rest b best ws b best c top (once, d) (rw (lower) refl) (omega arith)
                (ground arith) (inl (refl, refl)) w,
          )
    ]

-- The winner of the whole loop.
scan-member :
    (a : AccountEntry) (rest : List AccountEntry) (ws : Weights) (c : AccountEntry) (top : ℤ)
    → Distinct (ids (a ∷ rest))
    → IsWinner rest a
        (current a.id ws +ℤ weight_of a)
        (set_key a.id (current a.id ws +ℤ weight_of a) ws)
        c
        top
    → (contains c.id (ids (a ∷ rest)) ≡ true) × (top ≡ current c.id ws +ℤ share c.id (a ∷ rest))
unfolding scan
scan-member a rest ws c top d w =
    let cw = current a.id ws +ℤ weight_of a in
    elim w.member [
      | inr (inside, is) ↦ (ground (arith, inside), is ∙ current-scan (a ∷ rest) none ws c.id d)
      | inl (same, is) ↦
          subst
            (λ y.
              (contains y.id (ids (a ∷ rest)) ≡ true)
              × (top ≡ current y.id ws +ℤ share y.id (a ∷ rest)))
            (sym same) (rw (str_eq_refl a.id) refl, is ∙ rw (str_eq_refl a.id) refl)
    ]

scan-highest :
    (a : AccountEntry) (rest : List AccountEntry) (ws : Weights) (c : AccountEntry) (top : ℤ)
    → Distinct (ids (a ∷ rest))
    → IsWinner rest a
        (current a.id ws +ℤ weight_of a)
        (set_key a.id (current a.id ws +ℤ weight_of a) ws)
        c
        top
    → (i : String) → contains i (ids (a ∷ rest)) ≡ true
    → (current i ws +ℤ share i (a ∷ rest)) ≤ℤ top
unfolding scan
scan-highest a rest ws c top d w i h = elim (Bool-cases (str_eq a.id i)) [
  | inl same ↦ rw (same, sym (current-eq a.id i ws same)) w.above
  | inr other ↦
      subst (λ z. z ≤ℤ top) (current-scan (a ∷ rest) none ws i d) (w.highest i (ground arith))
]

settle_winner-some :
    (total : ℤ) (r : Option (AccountEntry × ℤ) × Weights) (c : AccountEntry) (top : ℤ)
    → r.0 ≡ some (c, top)
    → settle_winner total r ≡ (some c, set_key c.id (top -ℤ total) r.1)
settle_winner-some total (none, ws) c top h = cc
settle_winner-some total (some (b, bw), ws) c top h = cc

-- A selection among two accounts or more: every weight gets its share, the winner pays the total, and
-- the winner's weight was the highest.
pub record IsSelection (rest : List AccountEntry) (ws : Weights) (c : AccountEntry) : Type 0 where
  pub selected : (select rest ws).0 ≡ some c
  pub member : contains c.id (ids rest) ≡ true
  pub weights :
      (i : String)
      → current i (select rest ws).1
        ≡ ((current i ws +ℤ share i rest) -ℤ (if str_eq c.id i then total_weight rest else pos 0))
  pub highest :
      (i : String)
      → contains i (ids rest) ≡ true
      → (current i ws +ℤ share i rest) ≤ℤ (current c.id ws +ℤ share c.id rest)

weights-paid :
    (a b : AccountEntry) (rest : List AccountEntry) (ws : Weights) (c : AccountEntry) (top : ℤ)
    (i : String)
    → Distinct (ids (a ∷ b ∷ rest))
    → top ≡ current c.id ws +ℤ share c.id (a ∷ b ∷ rest)
    → (if str_eq c.id i
        then top -ℤ total_weight (a ∷ b ∷ rest)
        else current i (scan (a ∷ b ∷ rest) none ws).1)
      ≡ ((current i ws +ℤ share i (a ∷ b ∷ rest))
          -ℤ (if str_eq c.id i then total_weight (a ∷ b ∷ rest) else pos 0))
weights-paid a b rest ws c top i d is = elim (Bool-cases (str_eq c.id i)) [
  | inl same ↦ rw (same) (
      ap (λ z. z -ℤ total_weight (a ∷ b ∷ rest))
        (is ∙ ap (λ j. current j ws +ℤ share j (a ∷ b ∷ rest)) ((str_eq_iff c.id i).0 same)))
  | inr other ↦ rw (other, current-scan (a ∷ b ∷ rest) none ws i d) (grind int_laws)
]

pub select-IsSelection :
    (a b : AccountEntry) (rest : List AccountEntry) (ws : Weights)
    → Distinct (ids (a ∷ b ∷ rest))
    → leb_ℤ (total_weight (a ∷ b ∷ rest)) (pos 0) ≡ false
    → (c : AccountEntry) × IsSelection (a ∷ b ∷ rest) ws c
unfolding select scan
select-IsSelection a b rest ws d positive =
    let cw = current a.id ws +ℤ weight_of a in
    let after = set_key a.id cw ws in
    let (c, top, w) = scan-IsWinner (b ∷ rest) a cw after d.1 in
    let (inside, is) = scan-member a (b ∷ rest) ws c top d w in
    let total = total_weight (a ∷ b ∷ rest) in
    let run : select (a ∷ b ∷ rest) ws
        ≡ (some c, set_key c.id (top -ℤ total) (scan (a ∷ b ∷ rest) none ws).1) =
      rw (positive, select) (settle_winner-some total (scan (a ∷ b ∷ rest) none ws) c top w.wins) in
    (
      c,
      record {
        selected = ap (λ r. r.0) run;
        member = inside;
        weights = λ i.
            ap (λ r. current i r.1) run
            ∙ (current-set_key c.id i (top -ℤ total) (scan (a ∷ b ∷ rest) none ws).1
                ∙ weights-paid a b rest ws c top i d is);
        highest = λ i h.
            subst (λ z. (current i ws +ℤ share i (a ∷ b ∷ rest)) ≤ℤ z) is
              (scan-highest a (b ∷ rest) ws c top d w i h);
      },
    )
