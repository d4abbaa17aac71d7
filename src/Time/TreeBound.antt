-- ===== src/Time/TreeBound.antt =====
-- rec_mtim is the latest of the times that it counts.
use stirmake.Prelude.{
  ◌≡◌, ◌⊎◌, refl, sym, ◌∙◌, subst, Bool, true, false, not, ◌&&◌, Bool-cases, inl, inr, arith,
}
use stirmake.Time.{Timespec, is_newer, is_older}
use stirmake.Time.Order.{is_newer-eq-is_older, is_older_trans, is_older_refl, is_older_total}
use stirmake.Time.Tree.{Entries, nil, file, sub, Tree, later, raise_entry, scan_dir, rec_mtim}

-- No entry has a time later than `m`, files that are targets of a @rectgtrule left out. The times of
-- a directory always count: they are read again when it is opened.
abbrev pub NoneLater : Timespec → Entries → Type 0
NoneLater m nil = Unit
NoneLater m (file found st lst rest) =
    (found ≡ false → (is_older m st ≡ false) × (is_older m lst ≡ false)) × NoneLater m rest
NoneLater m (sub found st lst inner rest) =
    (is_older m st ≡ false) × (is_older m lst ≡ false) × NoneLater m inner × NoneLater m rest

later_bounds :
    (cur max : Timespec)
    → (is_older (later cur max) cur ≡ false) × (is_older (later cur max) max ≡ false)
unfolding later
later_bounds cur max = ground (
  arith,
  is_newer-eq-is_older cur max,
  is_older_refl cur,
  is_older_refl max,
  is_older_total max cur,
)

raise_entry_bound :
    (found : Bool) (st lst max : Timespec) → is_older (raise_entry found st lst max) max ≡ false
unfolding raise_entry
raise_entry_bound found st lst max = ground (
  arith,
  is_newer-eq-is_older (later lst st) max,
  is_older_refl max,
  is_older_total max (later lst st),
)

raise_entry_covers :
    (st lst max : Timespec) → is_older (raise_entry false st lst max) (later lst st) ≡ false
unfolding raise_entry
raise_entry_covers st lst max =
    ground (arith, is_newer-eq-is_older (later lst st) max, is_older_refl (later lst st))

scan_dir_bound : (es : Entries) (max : Timespec) → is_older (scan_dir max es) max ≡ false
unfolding scan_dir
scan_dir_bound nil max = is_older_refl max
scan_dir_bound (file found st lst rest) max =
    is_older_trans _ (raise_entry found st lst max) max
      (scan_dir_bound rest (raise_entry found st lst max)) (raise_entry_bound found st lst max)
scan_dir_bound (sub found st lst inner rest) max =
    let here = raise_entry found st lst max in
    let deep = later (scan_dir (later lst st) inner) here in
    is_older_trans _ deep max (scan_dir_bound rest deep) (
      is_older_trans deep here max (later_bounds (scan_dir (later lst st) inner) here).1
        (raise_entry_bound found st lst max))

NoneLater-trans :
    (m n : Timespec) (es : Entries) → is_older m n ≡ false → NoneLater n es → NoneLater m es
NoneLater-trans m n nil h a = tt
NoneLater-trans m n (file found st lst rest) h a = (
  λ e. (is_older_trans m n st h (a.0 e).0, is_older_trans m n lst h (a.0 e).1),
  NoneLater-trans m n rest h a.1,
)
NoneLater-trans m n (sub found st lst inner rest) h a = (
  is_older_trans m n st h a.0,
  is_older_trans m n lst h a.1,
  NoneLater-trans m n inner h a.2,
  NoneLater-trans m n rest h a.3,
)

scan_dir-NoneLater : (es : Entries) (max : Timespec) → NoneLater (scan_dir max es) es
unfolding scan_dir
scan_dir-NoneLater nil max = tt
scan_dir-NoneLater (file true st lst rest) max =
    (λ e. absurd (cc), scan_dir-NoneLater rest (raise_entry true st lst max))
scan_dir-NoneLater (file false st lst rest) max =
    let here = raise_entry false st lst max in
    let (l, s) = later_bounds lst st in
    let up =
      is_older_trans (scan_dir here rest) here (later lst st) (scan_dir_bound rest here)
        (raise_entry_covers st lst max) in
    (
      λ e. (is_older_trans _ (later lst st) st up s, is_older_trans _ (later lst st) lst up l),
      scan_dir-NoneLater rest here,
    )
scan_dir-NoneLater (sub found st lst inner rest) max =
    let here = raise_entry found st lst max in
    let own = later lst st in
    let below = scan_dir own inner in
    let deep = later below here in
    let top = scan_dir deep rest in
    let up = is_older_trans top deep below (scan_dir_bound rest deep) (later_bounds below here).0 in
    let to_own = is_older_trans top below own up (scan_dir_bound inner own) in
    let (l, s) = later_bounds lst st in
    (
      is_older_trans top own st to_own s,
      is_older_trans top own lst to_own l,
      NoneLater-trans top below inner up (scan_dir-NoneLater inner own),
      scan_dir-NoneLater rest deep,
    )

-- `m` is one of the times that count.
abbrev pub Counts : Timespec → Entries → Type 0
Counts m nil = ⊥
Counts m (file found st lst rest) = ((found ≡ false) × ((m ≡ st) ⊎ (m ≡ lst))) ⊎ Counts m rest
Counts m (sub found st lst inner rest) = ((m ≡ st) ⊎ (m ≡ lst)) ⊎ (Counts m inner ⊎ Counts m rest)

later_one : (cur max : Timespec) → (later cur max ≡ cur) ⊎ (later cur max ≡ max)
unfolding later
later_one cur max = elim (Bool-cases (is_newer cur max)) [
  | inl e ↦ inl (rw e refl)
  | inr e ↦ inr (rw e refl)
]

later_times : (m st lst : Timespec) → m ≡ later lst st → (m ≡ st) ⊎ (m ≡ lst)
later_times m st lst e = elim (later_one lst st) [ inl p ↦ inr (e ∙ p) | inr p ↦ inl (e ∙ p) ]

raise_entry_one :
    (found : Bool) (st lst max : Timespec)
    → ((found ≡ false) × (raise_entry found st lst max ≡ later lst st))
      ⊎ (raise_entry found st lst max ≡ max)
unfolding raise_entry
raise_entry_one found st lst max = elim (Bool-cases (is_newer (later lst st) max && not found)) [
  | inl e ↦ inl (ground arith, rw e refl)
  | inr e ↦ inr (rw e refl)
]

-- The scan leaves its first maximum, or a time that counts.
scan_dir-Counts :
    (es : Entries) (max : Timespec) → (scan_dir max es ≡ max) ⊎ Counts (scan_dir max es) es
unfolding scan_dir
scan_dir-Counts nil max = inl refl
scan_dir-Counts (file found st lst rest) max =
    let here = raise_entry found st lst max in
    elim (scan_dir-Counts rest here) [
      | inr c ↦ inr (inr c)
      | inl e ↦ elim (raise_entry_one found st lst max) [
        | inr p ↦ inl (e ∙ p)
        | inl (q, p) ↦ inr (inl (q, later_times (scan_dir here rest) st lst (e ∙ p)))
      ]
    ]
scan_dir-Counts (sub found st lst inner rest) max =
    let here = raise_entry found st lst max in
    let own = later lst st in
    let below = scan_dir own inner in
    let deep = later below here in
    let top = scan_dir deep rest in
    elim (scan_dir-Counts rest deep) [
      | inr c ↦ inr (inr (inr c))
      | inl e ↦ elim (later_one below here) [
        | inr p ↦ elim (raise_entry_one found st lst max) [
          | inr q ↦ inl (e ∙ p ∙ q)
          | inl (_, q) ↦ inr (inl (later_times top st lst (e ∙ p ∙ q)))
        ]
        | inl p ↦ elim (scan_dir-Counts inner own) [
          | inl q ↦ inr (inl (later_times top st lst (e ∙ p ∙ q)))
          | inr c ↦ inr (inr (inl (subst (λ m. Counts m inner) (sym (e ∙ p)) c)))
        ]
      ]
    ]

-- `m` is the latest of the times that count, those of the directory itself among them.
pub record IsLatest (m : Timespec) (t : Tree) : Type 0 where
  pub none_later :
      (is_older m t.stat_mtim ≡ false) × (is_older m t.lstat_mtim ≡ false) × NoneLater m t.entries
  pub counts : ((m ≡ t.stat_mtim) ⊎ (m ≡ t.lstat_mtim)) ⊎ Counts m t.entries

-- rec_mtim is the latest of the times of the directory, of all directories below it, and of the files
-- below it that are not targets of a @rectgtrule: it is one of them, and none of them is later.
pub rec_mtim-IsLatest : (t : Tree) → IsLatest (rec_mtim t) t
unfolding rec_mtim
rec_mtim-IsLatest t =
    let own = later t.lstat_mtim t.stat_mtim in
    let up = scan_dir_bound t.entries own in
    let (l, s) = later_bounds t.lstat_mtim t.stat_mtim in
    record {
      none_later = (
        is_older_trans _ own t.stat_mtim up s,
        is_older_trans _ own t.lstat_mtim up l,
        scan_dir-NoneLater t.entries own,
      );
      counts = elim (scan_dir-Counts t.entries own) [
        | inl e ↦ inl (later_times (scan_dir own t.entries) t.stat_mtim t.lstat_mtim e)
        | inr c ↦ inr c
      ];
    }
