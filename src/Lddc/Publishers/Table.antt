-- ===== src/Lddc/Publishers/Table.antt =====
-- The publishers that lddc.cpp hands out: each is the one that its lidar is to have, and is made once.
use mathlib.Core.Option.{some-injective}
use native.Mathlib.Decide.{ℕ_discrete}
use drone_exploration_stack.Prelude.{
  ℕ, zero, suc, ◌^◌, ◌≤◌, ◌<◌, ◌≡◌, ◌≢◌, refl, sym, ap, ◌∙◌, inl, inr, arith, Bool, true, false,
  Option, none, some, ◌∷◌, ◌++◌, take, length, get_elem?, set, Outcome, ok, if_true, if_false,
  Bool-cases, get_elem?-lt, lt_of_get_elem?, get_elem?-set_self, get_elem?-set_ne, length-set,
  replicate, ◌>>=◌,
}
use drone_exploration_stack.Floats.{Floats}
use drone_exploration_stack.Comm.Texts.{replace_period_by_underline_lem}
use drone_exploration_stack.CacheIndex.{Text}
use drone_exploration_stack.Lds.{Lds, LidarDevice}
use drone_exploration_stack.Lds.Store.{element_at-ok}
use drone_exploration_stack.Lddc.Publishers.{
  Publisher, Publishers, lidar_topic, print_name, advertise, kept_or_made, own_topic,
  get_current_publisher, no_publishers,
}
use drone_exploration_stack.Lddc.Publishers.Topics.{
  IsAddressText, IsFormat, names_distinct, topic_of, publisher_for, take_all, length-map,
}

kept_or_made-own :
    (o : Option Publisher) (made : Outcome Publisher) (wanted : Publisher)
    → ((p : Publisher) → o ≡ some p → p ≡ wanted)
    → made ≡ ok wanted
    → kept_or_made o made ≡ ok wanted
unfolding kept_or_made
kept_or_made-own none made wanted same makes = makes
kept_or_made-own (some p) made wanted same makes = ap ok (same p refl)

abbrev nothing : Option Publisher
nothing = none

none_of_copies : (n i : ℕ) (p : Publisher) → get_elem? (replicate n nothing) i ≢ some (some p)
none_of_copies zero i p e = cc
none_of_copies (suc n) zero p e = cc
none_of_copies (suc n) (suc i) p e = none_of_copies n i p e

module _ {fl : Floats} (ip_num_to_string : ℕ → Text) (text : IsAddressText ip_num_to_string) where
  -- The publishers made so far are those that the lidars are to have.
  pub record IsTable (format : ℕ) (s : Lds fl) (ps : Publishers) : Type 0 where
    pub slots : length ps.private_pub ≡ 32
    pub own :
        (i : ℕ) (p : Publisher) (d : LidarDevice fl.Float)
        → get_elem? ps.private_pub i ≡ some (some p)
        → get_elem? s.lidars i ≡ some d
        → p ≡ publisher_for ip_num_to_string true format d
    pub shared : (p : Publisher) → ps.global_pub ≡ some p → p ≡ advertise format lidar_topic 256

  -- The name fits its array of 48 characters.
  pub own_topic-topic_of :
      (s : Lds fl) (i : ℕ) (d : LidarDevice fl.Float)
      → get_elem? s.lidars i ≡ some d
      → own_topic ip_num_to_string lidar_topic (some s) i ≡ ok (topic_of ip_num_to_string d)
  unfolding own_topic print_name
  own_topic-topic_of s i d there =
      let text_is = (replace_period_by_underline_lem (ip_num_to_string d.handle) 0).0 in
      let small : length (topic_of ip_num_to_string d) ≤ 47 =
        omega (arith, length-map (ip_num_to_string d.handle), text.short d.handle) in
      rw (element_at-ok s.lidars i d there) (
        ap (λ t. ok (take 47 (lidar_topic ++ b'_' ∷ t))) text_is
        ∙ ap ok (take_all 47 (topic_of ip_num_to_string d) small))

  get_own :
      (format : ℕ) (s : Lds fl) (ps : Publishers) (i : ℕ) (d : LidarDevice fl.Float)
      → IsTable format s ps
      → ps.use_multi_topic ≡ true
      → get_elem? s.lidars i ≡ some d
      → i < 32
      → let wanted = publisher_for ip_num_to_string true format d in
        get_current_publisher ip_num_to_string format (some s) ps i
        ≡ ok (wanted, record ps { private_pub = set ps.private_pub i (some wanted) })
  unfolding get_current_publisher publisher_for
  get_own format s ps i d table multi there less =
      let (current, found) = get_elem?-lt ps.private_pub i (omega (arith, table.slots)) in
      let wanted = publisher_for ip_num_to_string true format d in
      let makes : (own_topic ip_num_to_string lidar_topic (some s) i >>= λ topic.
      ok (advertise format topic 4))
          ≡ ok wanted =
        rw (own_topic-topic_of s i d there) refl in
      let hands_out =
        kept_or_made-own current _ wanted (λ p is. table.own i p d (found ∙ ap some is) there)
          makes in
      if_true ps.use_multi_topic _ _ multi
      ∙ rw (element_at-ok ps.private_pub i current found) (rw hands_out refl)

  get_shared :
      (format : ℕ) (s : Lds fl) (ps : Publishers) (i : ℕ) (d : LidarDevice fl.Float)
      → IsTable format s ps
      → ps.use_multi_topic ≡ false
      → let wanted = publisher_for ip_num_to_string false format d in
        get_current_publisher ip_num_to_string format (some s) ps i
        ≡ ok (wanted, record ps { global_pub = some wanted })
  unfolding get_current_publisher publisher_for
  get_shared format s ps i d table single =
      let hands_out =
        kept_or_made-own ps.global_pub _ (advertise format lidar_topic 256) table.shared refl in
      if_false ps.use_multi_topic _ _ single ∙ rw hands_out refl

  set_own-IsTable :
      (format : ℕ) (s : Lds fl) (ps : Publishers) (i : ℕ) (d : LidarDevice fl.Float)
      → IsTable format s ps
      → get_elem? s.lidars i ≡ some d
      → IsTable format s (record ps {
        private_pub = set ps.private_pub i (some (publisher_for ip_num_to_string true format d));
      })
  set_own-IsTable format s ps i d table there = record {
    slots = length-set ps.private_pub i _ ∙ table.slots;
    own = λ j p e at others. elim (ℕ_discrete i j) [
      | no apart ↦ table.own j p e (sym (get_elem?-set_ne ps.private_pub i j _ apart) ∙ at) others
      | yes same ↦
          let wanted = publisher_for ip_num_to_string true format d in
          let less : i < length ps.private_pub = omega (
            arith,
            same,
            lt_of_get_elem? (set ps.private_pub i (some wanted)) j (some p) at,
            length-set ps.private_pub i (some wanted),
          ) in
          let made : some wanted ≡ some p = some-injective (some wanted) (some p) (
            sym (get_elem?-set_self ps.private_pub i (some wanted) less)
            ∙ ap (get_elem? (set ps.private_pub i (some wanted))) same
            ∙ at) in
          let device : d ≡ e =
            some-injective d e (sym there ∙ ap (get_elem? s.lidars) same ∙ others) in
          sym (some-injective wanted p made)
          ∙ ap (publisher_for ip_num_to_string true format) device
    ];
    shared = table.shared;
  }

  set_shared-IsTable :
      (format : ℕ) (s : Lds fl) (ps : Publishers) (d : LidarDevice fl.Float)
      → IsTable format s ps
      → IsTable format s
          (record ps { global_pub = some (publisher_for ip_num_to_string false format d) })
  unfolding publisher_for
  set_shared-IsTable format s ps d table = record {
    slots = table.slots;
    own = table.own;
    shared = λ p at. sym (some-injective (advertise format lidar_topic 256) p at);
  }

  -- At the start no publisher has been made.
  pub no_publishers-IsTable :
      (format : ℕ) (s : Lds fl) (multi : Bool) → IsTable format s (no_publishers multi)
  unfolding no_publishers
  no_publishers-IsTable format s multi = record {
    slots = refl;
    own = λ i p d at there. absurd (none_of_copies 32 i p at);
    shared = λ p at. cc;
  }

  -- `GetCurrentPublisher` for one of the 32 slots gives the publisher of the slot's lidar, and leaves a
  -- table.
  pub get_current_publisher-IsTable :
      (format : ℕ) (s : Lds fl) (ps : Publishers) (i : ℕ) (d : LidarDevice fl.Float)
      → IsTable format s ps
      → get_elem? s.lidars i ≡ some d
      → i < 32
      → let wanted = publisher_for ip_num_to_string ps.use_multi_topic format d in
        (ps' : Publishers) × (get_current_publisher ip_num_to_string format (some s) ps i
          ≡ ok (wanted, ps'))
        × IsTable format s ps'
        × (ps'.use_multi_topic ≡ ps.use_multi_topic)
  get_current_publisher-IsTable format s ps i d table there less =
      elim (Bool-cases ps.use_multi_topic) [
        | inl multi ↦
            let wanted = publisher_for ip_num_to_string true format d in
            let ps' = record ps { private_pub = set ps.private_pub i (some wanted) } in
            (
              ps',
              get_own format s ps i d table multi there less
                  ∙ ap (λ m. ok (publisher_for ip_num_to_string m format d, ps')) (sym multi),
              set_own-IsTable format s ps i d table there,
              refl,
            )
        | inr single ↦
            let wanted = publisher_for ip_num_to_string false format d in
            let ps' = record ps { global_pub = some wanted } in
            (
              ps',
              get_shared format s ps i d table single
                  ∙ ap (λ m. ok (publisher_for ip_num_to_string m format d, ps')) (sym single),
              set_shared-IsTable format s ps d table,
              refl,
            )
      ]

  handed_out :
      (format : ℕ) (s : Lds fl) (ps ps' : Publishers) (i : ℕ) (d : LidarDevice fl.Float)
      (p : Publisher)
      → IsTable format s ps
      → ps.use_multi_topic ≡ true
      → get_elem? s.lidars i ≡ some d
      → i < 32
      → get_current_publisher ip_num_to_string format (some s) ps i ≡ ok (p, ps')
      → p ≡ publisher_for ip_num_to_string true format d
  handed_out format s ps ps' i d p table multi there less run =
      let wanted = publisher_for ip_num_to_string true format d in
      let same : ◌≡◌ {A = Outcome (Publisher × Publishers)} (ok (p, ps'))
          (ok (wanted, record ps { private_pub = set ps.private_pub i (some wanted) })) =
        sym run ∙ get_own format s ps i d table multi there less in
      let pair : ◌≡◌ {A = Publisher × Publishers} (p, ps')
          (wanted, record ps { private_pub = set ps.private_pub i (some wanted) }) =
        cc in
      ap (λ (x : Publisher × Publishers). x.0) pair

  -- With a topic for each lidar and in each of the three formats, `GetCurrentPublisher` gives the slots
  -- of two lidars of different addresses different publishers, in whatever order it is asked: both of
  -- its tables hold what earlier calls have made.
  pub publishers_distinct :
      (format : ℕ) (s : Lds fl) (ps ps' qs qs' : Publishers) (i j : ℕ) (d e : LidarDevice fl.Float)
      (p q : Publisher)
      → IsFormat format
      → IsTable format s ps
      → ps.use_multi_topic ≡ true
      → IsTable format s qs
      → qs.use_multi_topic ≡ true
      → get_elem? s.lidars i ≡ some d
      → get_elem? s.lidars j ≡ some e
      → i < 32
      → j < 32
      → d.handle < 2 ^ 32
      → e.handle < 2 ^ 32
      → d.handle ≢ e.handle
      → get_current_publisher ip_num_to_string format (some s) ps i ≡ ok (p, ps')
      → get_current_publisher ip_num_to_string format (some s) qs j ≡ ok (q, qs')
      → p ≢ q
  publishers_distinct format s ps ps' qs qs' i j d e p q known table multi table' multi' at at' less
        less' small_d small_e apart run run' same =
      names_distinct ip_num_to_string format d e text known small_d small_e apart (
        sym (handed_out format s ps ps' i d p table multi at less run)
        ∙ same
        ∙ handed_out format s qs qs' j e q table' multi' at' less' run')
