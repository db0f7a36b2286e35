-- ===== src/Batch/Collecting.antt =====
-- What the loops of `perform_aggregation` collect covers each stale completion that they read.
use openedx_completion_aggre.Prelude.{
  ℕ, suc, ◌<◌, ◌≡◌, refl, sym, ap, ◌∙◌, subst, ◌↔◌, ◌⊎◌, inl, inr, true, false, Option, none, some,
  List, [], ◌∷◌, ◌++◌, elem, add, length, In, arith, str_eq_iff, Bool-cases, leb,
}
use openedx_completion_aggre.Platform.{BlockKey}
use openedx_completion_aggre.Utils.{Container, bag_of_holding, key_set}
use openedx_completion_aggre.Models.{StaleCompletion}
use openedx_completion_aggre.Batch.{
  Enrollment, enrollment_eq, Collected, blocks_of, put_blocks, is_forced, enrollment_of, note_block,
  collect_one, collect_all, max_keys_per_task,
}

pub enrollment_eq_iff : (a b : Enrollment) → (enrollment_eq a b ≡ true) ↔ (a ≡ b)
enrollment_eq_iff a b = ground (arith, str_eq_iff a.username b.username)

blocks_of-put_self :
    (e : Enrollment) (change : Container → Container) (d : List (Enrollment × Container))
    → (c : Container) × (blocks_of e (put_blocks e change d) ≡ some (change c))
      × ((b : Container) → blocks_of e d ≡ some b → b ≡ c)
unfolding blocks_of put_blocks
blocks_of-put_self e change [] = (key_set [], ground (arith, enrollment_eq_iff e e), λ b h. cc)
blocks_of-put_self e change ((f, c) ∷ d) =
    let (c', found, same) = blocks_of-put_self e change d in
    elim (Bool-cases (enrollment_eq f e)) [
      | inl h ↦ (c, rw (h, put_blocks, blocks_of) (rw (h, blocks_of)), λ b p. ground arith)
      | inr h ↦ (
        c',
        rw (h, put_blocks, blocks_of) (rw (h, blocks_of) found),
        λ b p. same b (ground arith),
      )
    ]

pub blocks_of-put_ne :
    (e g : Enrollment) (change : Container → Container) (d : List (Enrollment × Container))
    → enrollment_eq e g ≡ false
    → blocks_of g (put_blocks e change d) ≡ blocks_of g d
unfolding blocks_of put_blocks
blocks_of-put_ne e g change [] h = ground arith
blocks_of-put_ne e g change ((f, c) ∷ d) h = ground (
  arith,
  enrollment_eq_iff f e,
  enrollment_eq_iff f g,
  enrollment_eq_iff e g,
  blocks_of-put_ne e g change d,
)

elem-append_left : (k : ℕ) (xs ys : List ℕ) → elem k xs ≡ true → elem k (xs ++ ys) ≡ true
elem-append_left k [] ys h = cc
elem-append_left k (x ∷ xs) ys h = ground (arith, elem-append_left k xs ys)

elem-append_self : (k : ℕ) (xs : List ℕ) → elem k (xs ++ k ∷ []) ≡ true
elem-append_self k [] = ground arith
elem-append_self k (x ∷ xs) = ground (arith, elem-append_self k xs)

length-append_one : (j : ℕ) (xs : List ℕ) → length (xs ++ j ∷ []) ≡ suc (length xs)
length-append_one j [] = refl
length-append_one j (x ∷ xs) = omega (arith, length-append_one j xs)

-- A container of blocks stands for the completion of the key: it holds the key, or it stands for
-- the whole course.
abbrev pub Absorbs : Option BlockKey → Container → Type 0
Absorbs key bag_of_holding = Unit
Absorbs none (key_set keys) = ⊥
Absorbs (some key) (key_set keys) = (elem key keys ≡ true) ⊎ (max_keys_per_task < length keys)

leb-false : (a b : ℕ) → leb a b ≡ false → b < a
leb-false a b h = ground arith

Absorbs-add :
    (j k : BlockKey) (keys : List BlockKey)
    → Absorbs (some k) (key_set keys)
    → Absorbs (some k) (key_set (add j keys))
Absorbs-add j k keys h = elim (Bool-cases (elem j keys)) [
  | inl old ↦ rw old h
  | inr new ↦ rw new (elim h [
    | inl hit ↦ inl (elem-append_left k keys (j ∷ []) hit)
    | inr big ↦ inr (omega (arith, length-append_one j keys))
  ])
]

Absorbs-add_self : (k : BlockKey) (keys : List BlockKey) → Absorbs (some k) (key_set (add k keys))
Absorbs-add_self k keys = elim (Bool-cases (elem k keys)) [
  | inl old ↦ rw old (inl old)
  | inr new ↦ rw new (inl (elem-append_self k keys))
]

Absorbs-note :
    (new key : Option BlockKey) (c : Container) → Absorbs key c → Absorbs key (note_block new c)
unfolding note_block
Absorbs-note none key c h = tt
Absorbs-note (some j) key bag_of_holding h = tt
Absorbs-note (some j) (some k) (key_set keys) h =
    elim (Bool-cases (leb (length keys) max_keys_per_task)) [
      | inl fits ↦ rw fits (Absorbs-add j k keys h)
      | inr full ↦ rw full h
    ]
Absorbs-note (some j) none (key_set keys) h = elim h [ ]

Absorbs-note_self : (key : Option BlockKey) (c : Container) → Absorbs key (note_block key c)
unfolding note_block
Absorbs-note_self none c = tt
Absorbs-note_self (some k) bag_of_holding = tt
Absorbs-note_self (some k) (key_set keys) =
    elim (Bool-cases (leb (length keys) max_keys_per_task)) [
      | inl fits ↦ rw fits (Absorbs-add_self k keys)
      | inr full ↦ rw full (inr (leb-false _ _ full))
    ]

-- What has been collected covers a stale completion.
pub record Covers (c : Collected) (stale : StaleCompletion) : Type 0 where
  pub blocks : Container
  pub found : blocks_of (enrollment_of stale) c.stale_blocks ≡ some blocks
  pub absorbs : Absorbs stale.block_key blocks
  pub forced : stale.force ≡ true → is_forced (enrollment_of stale) c.forced_updates ≡ true

Covers-collect_one_self :
    (stale : StaleCompletion) (c : Collected) → Covers (collect_one stale c) stale
unfolding collect_one is_forced
Covers-collect_one_self stale c =
    let e = enrollment_of stale in
    let (b, found, _) = blocks_of-put_self e (note_block stale.block_key) c.stale_blocks in
    record {
      blocks = note_block stale.block_key b;
      found = found;
      absorbs = Absorbs-note_self stale.block_key b;
      forced = λ h. ground (arith, enrollment_eq_iff e e);
    }

Covers-collect_one :
    (new stale : StaleCompletion) (c : Collected)
    → Covers c stale
    → Covers (collect_one new c) stale
unfolding collect_one is_forced
Covers-collect_one new stale c h =
    let e = enrollment_of new in
    let g = enrollment_of stale in
    let forced' : stale.force ≡ true → is_forced g (collect_one new c).forced_updates ≡ true =
      λ p. ground (arith, h.forced p) in
    elim (Bool-cases (enrollment_eq e g)) [
      | inl same ↦
          let eq : e ≡ g = (enrollment_eq_iff e g).0 same in
          let (b, found, unique) = blocks_of-put_self e (note_block new.block_key) c.stale_blocks in
          let old : h.blocks ≡ b =
            unique h.blocks (ap (λ x. blocks_of x c.stale_blocks) eq ∙ h.found) in
          record {
            blocks = note_block new.block_key b;
            found = ap (λ x. blocks_of x (collect_one new c).stale_blocks) (sym eq) ∙ found;
            absorbs =
                Absorbs-note new.block_key stale.block_key b
                  (subst (Absorbs stale.block_key) old h.absorbs);
            forced = forced';
          }
      | inr other ↦ record {
        blocks = h.blocks;
        found = blocks_of-put_ne e g (note_block new.block_key) c.stale_blocks other ∙ h.found;
        absorbs = h.absorbs;
        forced = forced';
      }
    ]

pub Covers-collect_all :
    (rows : List StaleCompletion) (stale : StaleCompletion) (c : Collected)
    → Covers c stale
    → Covers (collect_all rows c) stale
unfolding collect_all
Covers-collect_all [] stale c h = h
Covers-collect_all (row ∷ rows) stale c h =
    Covers-collect_all rows stale (collect_one row c) (Covers-collect_one row stale c h)

pub Covers-collect_all-In :
    (rows : List StaleCompletion) (stale : StaleCompletion) (c : Collected)
    → In stale rows
    → Covers (collect_all rows c) stale
unfolding collect_all
Covers-collect_all-In [] stale c m = elim m [ ]
Covers-collect_all-In (row ∷ rows) stale c (inl e) =
    Covers-collect_all rows stale (collect_one row c)
      (subst (λ r. Covers (collect_one r c) stale) e (Covers-collect_one_self stale c))
Covers-collect_all-In (row ∷ rows) stale c (inr m) =
    Covers-collect_all-In rows stale (collect_one row c) m
