-- ===== src/Restore/Over.antt =====
-- A recovery keeps the world recoverable, and one that is over has put it back, in
-- internal/arcade/manager.go.
use teploy_arcade.Prelude.{
  ℕ, suc, String, ◌≡◌, refl, sym, ap, ◌∙◌, subst, inl, inr, Bool, true, false, ◌&&◌, ◌||◌, Option,
  none, some, List, [], arith, ◌==◌, Bool-cases, members-All, Assoc, lookup, keys, keys_cases,
  string_key,
}
use teploy_arcade.Prelude.Int.{int_key, pos}
use teploy_arcade.Text.{bytes_key}
use teploy_arcade.Restore.Disk.{Meta, Journal, Disk, Fate, give_back, remove_live, each_name}
use teploy_arcade.Restore.Recover.{to_remove, recovered_meta, undo_install, clear_way, settle}
use teploy_arcade.Restore.Safe.{
  not_in_nil, IsSafe, each_name-keeps, each_name-clears, give_back-held, give_back-journal,
  give_back-IsSafe,
}
use teploy_arcade.Restore.Undo.{allowed, Modelled, weaken, give_back-HasBooks}
use teploy_arcade.Restore.World.{
  Phase-cases, SameWorld, Books, Recoverable, undone, clear_way-keeps,
}

-- The panel's model is the old one; a journal without a number of players leaves that one open.
abbrev pub OldModel : Meta → Meta → Type 0
OldModel model m =
    (m.port ≡ model.port)
    × (m.props ≡ model.props)
    × ((model.max_players == pos 0) ≡ false → m.max_players ≡ model.max_players)

pub old_same : (model m : Meta) → m ≡ model → OldModel model m
old_same model m same =
    (ap (λ x. x.port) same, ap (λ x. x.props) same, λ known. ap (λ x. x.max_players) same)

module _ {C : Type 0} (orig : Assoc String C) (model : Meta) where
  -- The world is in its place and the model is the old one.
  pub record IsBack (d : Disk C) : Type 0 where
    pub world : SameWorld d.live orig
    pub emptied : SameWorld d.held []
    pub old : OldModel model d.meta

  -- A journal stays, whatever its phase.
  abbrev pub Journalled : Disk C → Type 0
  Journalled d = (j : Journal) × (d.journal ≡ some j)

  pub undo_install-journal :
      (fate : Fate) (j : Journal) (d : Disk C)
      → d.journal ≡ some j
      → Journalled (undo_install fate (some j) d).2
  unfolding undo_install
  undo_install-journal fate j d here = elim (Phase-cases j.phase) [
    | inl p ↦ rw p (j, here)
    | inr (inr p) ↦ rw p (stays d (j, here))
    | inr (inl p) ↦ rw p (elim (Bool-cases (fate.goes 0)) [
      | inl goes ↦ rw goes (stays _ (_, refl))
      | inr fails ↦ rw fails (elim (Bool-cases (fate.lands 0)) [
        | inl lands ↦ rw lands (_, refl)
        | inr lost ↦ rw lost (j, here)
      ])
    ])
  ]
    where
      stays :
          (x : Disk C)
          → Journalled x
          → Journalled (each_name fate remove_live (to_remove j.original (keys d.held) j.new) 1 x).2
      stays x there =
          each_name-keeps Journalled (λ n. Unit {0}) remove_live (λ n y u kept. kept) fate _ 1 x
            (members-All _ _ (λ n listed. tt)) there

  -- The entries go back.
  given_back :
      (fate : Fate) (names : List String) (k : ℕ) (o : Option Journal) (d : Disk C)
      → IsSafe orig [] d × Books orig model d × (d.journal ≡ o)
      → (let e = (each_name fate give_back names k d).2 in
          IsSafe orig [] e × Books orig model e × (e.journal ≡ o))
  given_back fate names k o d v =
      each_name-keeps (λ e. IsSafe orig [] e × Books orig model e × (e.journal ≡ o)) (λ n. Unit {0})
        give_back one fate names k d (members-All _ names (λ n listed. tt)) v
    where
      one :
          (name : String) (x : Disk C)
          → Unit {0}
          → IsSafe orig [] x × Books orig model x × (x.journal ≡ o)
          → IsSafe orig [] (give_back name x)
            × Books orig model (give_back name x)
            × ((give_back name x).journal ≡ o)
      one name x u (safe, books, same) = (
        give_back-IsSafe orig [] name x safe,
        give_back-HasBooks orig model name x books,
        give_back-journal name x ∙ same,
      )

  -- With nothing held, a safe world is in its place.
  pub all_in_place : (d : Disk C) → IsSafe orig [] d → SameWorld d.held [] → SameWorld d.live orig
  unfolding lookup
  all_in_place d safe none_held n = elim (safe n) [
    | inl (held, back) ↦ back
    | inr (held, inl free) ↦ free ∙ sym (none_held n) ∙ held
    | inr (held, inr new) ↦ absurd (not_in_nil n new)
  ]

  none_left :
      (fate : Fate) (k : ℕ) (held : Assoc String C) (d : Disk C)
      → d.held ≡ held
      → (each_name fate give_back (keys held) k d).0 ≡ true
      → SameWorld (each_name fate give_back (keys held) k d).2.held []
  unfolding lookup
  none_left fate k held d same went n =
      let gone =
        each_name-clears (λ (x : Disk C). x.held) give_back give_back-held fate (keys held) k d n
          went in
      elim (keys_cases n held) [
        | inl (listed, found) ↦ gone ∙ rw listed refl
        | inr (unlisted, away) ↦ gone ∙ rw unlisted (ap (lookup n) same ∙ away)
      ]

  -- What holds after the entries went back, or as far as they did.
  pub returned :
      (fate : Fate) (d : Disk C)
      → Recoverable orig model d
      → ((undo_install fate d.journal d).0 ≡ true)
      → (let (undone, n, d1) = undo_install fate d.journal d in
          let (m, d2) = clear_way fate (keys d.held) n d1 in
          let (back, k, d3) = each_name fate give_back (keys d.held) m d2 in
          IsSafe orig [] d3
          × Books orig model d3
          × (d3.journal ≡ d1.journal)
          × (back ≡ true → SameWorld d3.held []))
  returned fate d v went =
      let r = undo_install fate d.journal d in
      let (vd, cases, h) = undone orig model fate d.journal d refl v in
      let d1 = r.2 in
      let c = clear_way fate (keys d.held) r.1 d1 in
      let start : IsSafe orig [] d1 = (elim cases [
        | inl not_all ↦ absurd (let no : true ≡ false = sym went ∙ not_all in ground arith)
        | inr safe ↦ safe
      ]) in
      let (safe2, books2, j2, h2) =
        clear_way-keeps orig model d.held d1.journal fate (keys d.held) r.1 d1
          (members-All _ _ (λ n listed. listed)) (start, vd.books, refl, h) in
      let (safe3, books3, j3) =
        given_back fate (keys d.held) c.0 d1.journal c.1 (safe2, books2, j2) in
      (safe3, books3, j3, λ back. none_left fate c.0 d.held c.1 h2 back)

  -- The model, as it is saved.
  pub saved_model :
      (o : Option Journal) (m : Meta)
      → Modelled orig model o m
      → OldModel model (recovered_meta o m)
  unfolding recovered_meta
  saved_model none m same = old_same model m same
  saved_model (some j) m same = (
    ap (λ x. x.port) same,
    ap (λ x. x.props) same,
    λ known.
        (let there : (j.old.max_players == pos 0) ≡ false = rw same known in
          rw there (ap (λ x. x.max_players) same)),
  )

  pub recovered_meta-Modelled :
      (o : Option Journal) (e : Disk C)
      → Modelled orig model e.journal e.meta
      → ((j : Journal) → o ≡ some j → Journalled e)
      → Modelled orig model e.journal (recovered_meta o e.meta)
  unfolding recovered_meta
  recovered_meta-Modelled none e same there = same
  recovered_meta-Modelled (some j) e same there =
      let (j', here) = there j refl in
      subst (λ q. Modelled orig model q (recovered_meta (some j) e.meta)) (sym here)
        (subst (λ q. Modelled orig model q e.meta) here same)

  pub settle-IsRecoverable :
      (fate : Fate) (back : Bool) (k : ℕ) (o : Option Journal) (d : Disk C)
      → IsSafe orig [] d × Books orig model d × (back ≡ true → SameWorld d.held [])
      → OldModel model (recovered_meta o d.meta)
      → Modelled orig model d.journal (recovered_meta o d.meta)
      → (let r = settle fate back k o d in Recoverable orig model r.1 × (r.0 ≡ true → IsBack r.1))
  unfolding settle
  settle-IsRecoverable fate back k o d (safe, books, emptied) saved kept =
      elim (Bool-cases (back && fate.goes k)) [
        | inr stopped ↦ rw stopped (
          record { safe = weaken orig model (allowed d.journal) d safe; books = books },
          λ over. absurd (let no : false ≡ true = over in ground arith),
        )
        | inl both ↦
            let none_held = emptied (ground arith) in
            rw both (elim (Bool-cases (fate.goes (suc k) || fate.lands (suc k))) [
              | inr lost ↦ rw lost (
                record { safe = weaken orig model (allowed d.journal) d safe; books = books },
                λ over. absurd (let no : true ≡ false = rw over at lost in ground arith),
              )
              | inl lands ↦ rw lands (
                record {
                  safe = weaken orig model (allowed d.journal) d safe;
                  books = record {
                    logged = books.logged;
                    modelled = kept;
                    unmarked = books.unmarked;
                  };
                },
                λ over. record {
                  world = all_in_place d safe none_held;
                  emptied = none_held;
                  old = saved;
                },
              )
            ])
      ]
