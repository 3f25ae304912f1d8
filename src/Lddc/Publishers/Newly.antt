-- ===== src/Lddc/Publishers/Newly.antt =====
-- The publishers that lddc.cpp of ros_ws/src/livox_ros_driver2/src holds, when it stores one in its
-- place: what was there is kept, and what is made is one more.
use mathlib.Core.List.{append_assoc, Perm, perm_middle}
use mathlib.Core.List.Perm
use mathlib.Core.Option.{some-injective}
use drone_exploration_stack.Prelude.{
  ℕ, zero, suc, ◌≡◌, refl, sym, ap, ◌∙◌, ◌⊎◌, inl, inr, Option, none, some, List, [], ◌∷◌, ◌++◌,
  get_elem?, set, Outcome, ok,
}
use drone_exploration_stack.Lds.{element_at}
use drone_exploration_stack.Lds.Store.{element_at-there}
use drone_exploration_stack.Lddc.Publishers.{Publisher, Publishers, kept_or_made}
use drone_exploration_stack.Lddc.Publishers.Closing.{present, all_present, owned}

-- A publisher put into a null element is one more, and one put back is none more.
set-new :
    (ps : List (Option Publisher)) (i : ℕ) (p : Publisher)
    → get_elem? ps i ≡ some none
    → Perm (all_present (set ps i (some p))) (p ∷ all_present ps)
set-new [] i p e = cc
set-new (o ∷ ps) zero p e =
    let absent : o ≡ none = some-injective o none e in rw absent (Perm.refl (p ∷ all_present ps))
set-new (o ∷ ps) (suc i) p e =
    Perm.trans (Perm.append_left (present o) (set-new ps i p e))
      (perm_middle (present o) (all_present ps))

set-same :
    (ps : List (Option Publisher)) (i : ℕ) (p : Publisher)
    → get_elem? ps i ≡ some (some p)
    → set ps i (some p) ≡ ps
set-same [] i p e = refl
set-same (o ∷ ps) zero p e = ap (λ q. q ∷ ps) (sym (some-injective o (some p) e))
set-same (o ∷ ps) (suc i) p e = ap (λ qs. o ∷ qs) (set-same ps i p e)

abbrev pub newly : Option Publisher → Publisher → List Publisher
newly none p = p ∷ []
newly (some q) p = []

-- What is there is kept, and what is made is one more.
pub kept_or_made-newly :
    (current : Option Publisher) (p : Publisher) (made : Outcome Publisher)
    → kept_or_made current made ≡ ok p
    → (current ≡ none) ⊎ (current ≡ some p)
unfolding kept_or_made
kept_or_made-newly none p made kept = inl refl
kept_or_made-newly (some q) p made kept = inr (ap some (cc))

present-newly :
    (current : Option Publisher) (p : Publisher)
    → (current ≡ none) ⊎ (current ≡ some p)
    → present (some p) ≡ newly current p ++ present current
present-newly current p (inl e) = rw e refl
present-newly current p (inr e) = rw e refl

set-newly :
    (ps : List (Option Publisher)) (i : ℕ) (current : Option Publisher) (p : Publisher)
    → element_at ps i ≡ ok current
    → (current ≡ none) ⊎ (current ≡ some p)
    → Perm (all_present (set ps i (some p))) (newly current p ++ all_present ps)
set-newly ps i current p there (inl e) =
    rw e (set-new ps i p (element_at-there ps i current there ∙ ap some e))
set-newly ps i current p there (inr e) =
    let same = set-same ps i p (element_at-there ps i current there ∙ ap some e) in
    rw e (rw same (Perm.refl (all_present ps)))

newly_first :
    (current : Option Publisher) (p : Publisher) (xs ys : List Publisher)
    → Perm (xs ++ (newly current p ++ ys)) (newly current p ++ (xs ++ ys))
newly_first none p xs ys = perm_middle xs ys
newly_first (some q) p xs ys = Perm.refl (xs ++ ys)

-- One more in the second of two lists is one more in front of both.
newly_behind :
    (current : Option Publisher) (p : Publisher) (xs ys zs : List Publisher)
    → Perm ys (newly current p ++ zs)
    → Perm (xs ++ ys) (newly current p ++ (xs ++ zs))
newly_behind current p xs ys zs more =
    Perm.trans (Perm.append_left xs more) (newly_first current p xs zs)

newly_before :
    (current : Option Publisher) (p : Publisher) (xs ys zs : List Publisher)
    → Perm xs (newly current p ++ zs)
    → Perm (xs ++ ys) (newly current p ++ (zs ++ ys))
newly_before current p xs ys zs more =
    rw (sym (append_assoc (newly current p) zs ys)) (Perm.append_right ys more)

pub ok_lem : {a b : Option Publisher} → ok a ≡ ok b → a ≡ b
ok_lem e = cc

pub owned-private_pub :
    (ps : Publishers) (i : ℕ) (current : Option Publisher) (p : Publisher)
    → element_at ps.private_pub i ≡ ok current
    → (current ≡ none) ⊎ (current ≡ some p)
    → Perm
        (owned (record ps { private_pub = set ps.private_pub i (some p) }))
        (newly current p ++ owned ps)
owned-private_pub ps i current p there kind =
    newly_behind current p (present ps.global_pub)
      (present ps.global_imu_pub
        ++ (all_present (set ps.private_pub i (some p)) ++ all_present ps.private_imu_pub))
      (present ps.global_imu_pub ++ (all_present ps.private_pub ++ all_present ps.private_imu_pub))
      (newly_behind current p (present ps.global_imu_pub)
        (all_present (set ps.private_pub i (some p)) ++ all_present ps.private_imu_pub)
        (all_present ps.private_pub ++ all_present ps.private_imu_pub)
        (newly_before current p (all_present (set ps.private_pub i (some p)))
          (all_present ps.private_imu_pub) (all_present ps.private_pub)
          (set-newly ps.private_pub i current p there kind)))

pub owned-private_imu_pub :
    (ps : Publishers) (i : ℕ) (current : Option Publisher) (p : Publisher)
    → element_at ps.private_imu_pub i ≡ ok current
    → (current ≡ none) ⊎ (current ≡ some p)
    → Perm
        (owned (record ps { private_imu_pub = set ps.private_imu_pub i (some p) }))
        (newly current p ++ owned ps)
owned-private_imu_pub ps i current p there kind =
    newly_behind current p (present ps.global_pub)
      (present ps.global_imu_pub
        ++ (all_present ps.private_pub ++ all_present (set ps.private_imu_pub i (some p))))
      (present ps.global_imu_pub ++ (all_present ps.private_pub ++ all_present ps.private_imu_pub))
      (newly_behind current p (present ps.global_imu_pub)
        (all_present ps.private_pub ++ all_present (set ps.private_imu_pub i (some p)))
        (all_present ps.private_pub ++ all_present ps.private_imu_pub)
        (newly_behind current p (all_present ps.private_pub)
          (all_present (set ps.private_imu_pub i (some p))) (all_present ps.private_imu_pub)
          (set-newly ps.private_imu_pub i current p there kind)))

Perm-of : {xs ys : List Publisher} → xs ≡ ys → Perm xs ys
Perm-of {xs} e = rw (sym e) (Perm.refl xs)

pub owned-global_pub :
    (ps : Publishers) (p : Publisher)
    → (ps.global_pub ≡ none) ⊎ (ps.global_pub ≡ some p)
    → Perm (owned (record ps { global_pub = some p })) (newly ps.global_pub p ++ owned ps)
owned-global_pub ps p kind =
    newly_before ps.global_pub p (present (some p))
      (present ps.global_imu_pub ++ (all_present ps.private_pub ++ all_present ps.private_imu_pub))
      (present ps.global_pub) (Perm-of (present-newly ps.global_pub p kind))

pub owned-global_imu_pub :
    (ps : Publishers) (p : Publisher)
    → (ps.global_imu_pub ≡ none) ⊎ (ps.global_imu_pub ≡ some p)
    → Perm (owned (record ps { global_imu_pub = some p })) (newly ps.global_imu_pub p ++ owned ps)
owned-global_imu_pub ps p kind =
    newly_behind ps.global_imu_pub p (present ps.global_pub)
      (present (some p) ++ (all_present ps.private_pub ++ all_present ps.private_imu_pub))
      (present ps.global_imu_pub ++ (all_present ps.private_pub ++ all_present ps.private_imu_pub))
      (newly_before ps.global_imu_pub p (present (some p))
        (all_present ps.private_pub ++ all_present ps.private_imu_pub) (present ps.global_imu_pub)
        (Perm-of (present-newly ps.global_imu_pub p kind)))
