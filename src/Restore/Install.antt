-- ===== src/Restore/Install.antt =====
-- The two worlds on their way, in `RestoreBackup` of internal/arcade/backup.go: the old one goes out
-- and the new one in.
use teploy_arcade.Prelude.{
  ℕ, String, ◌≡◌, refl, sym, ◌∙◌, ◌⊎◌, inl, inr, true, none, some, [], arith, if◌then◌else◌, ◌==◌,
  Option-cases, same_refl, same_cases, members-All, Assoc, lookup, lookup-remove, lookup-insert,
  keys, keys_cases, string_key,
}
use teploy_arcade.Text.{bytes_key}
use teploy_arcade.Restore.Disk.{Disk, Fate, evacuate, install, each_name}
use teploy_arcade.Restore.Safe.{Away, IsSafe, each_name-keeps, each_name-clears, evacuate-live}
use teploy_arcade.Restore.World.{SameWorld}

module _ {C : Type 0} where
  -- After the evacuation, every original is held and its place is free.
  pub evacuated :
      (orig : Assoc String C) (fate : Fate) (k : ℕ) (d : Disk C)
      → SameWorld d.live orig
      → IsSafe orig [] (each_name fate evacuate (keys d.live) k d).2
      → (each_name fate evacuate (keys d.live) k d).0 ≡ true
      → (n : String)
      → Away orig [] (each_name fate evacuate (keys d.live) k d).2 n
        × (lookup n (each_name fate evacuate (keys d.live) k d).2.live ≡ none)
  evacuated orig fate k d same safe went n =
      let gone =
        each_name-clears (λ (x : Disk C). x.live) evacuate evacuate-live fate (keys d.live) k d n
          went in
      let free : lookup n (each_name fate evacuate (keys d.live) k d).2.live ≡ none =
        (elim (keys_cases n d.live) [
          | inl (listed, found) ↦ gone ∙ rw listed refl
          | inr (unlisted, away) ↦ gone ∙ rw unlisted away
        ]) in
      elim (safe n) [
        | inl (held, back) ↦ ((held ∙ sym free ∙ back, inl free), free)
        | inr away ↦ (away, free)
      ]

  -- An entry of the archive is still extracted and its place is free, or it is in its place.
  abbrev Moving : Assoc String C → Disk C → Type 0
  Moving archive d =
      (n : String)
      → ((lookup n d.extracted ≡ lookup n archive) × (lookup n d.live ≡ none))
        ⊎ ((lookup n d.extracted ≡ none) × (lookup n d.live ≡ lookup n archive))

  install-Moving :
      (archive : Assoc String C) (name : String) (d : Disk C)
      → Moving archive d
      → Moving archive (install name d)
  unfolding install
  install-Moving archive name d moving = elim (Option-cases (lookup name d.extracted)) [
    | inl away ↦ rw (away, install) moving
    | inr (c, there) ↦
        rw (there, install)
          (λ n. elim (same_cases name n) [
            | inr other ↦
                rw (lookup-insert name n c d.live, lookup-remove name n d.extracted, other)
                  (moving n)
            | inl same ↦
                rw
                  (
                    ← same,
                    lookup-insert name name c d.live,
                    lookup-remove name name d.extracted,
                    same_refl name,
                  )
                  (inr (
                    refl,
                    elim (moving name) [
                      | inl (out, free) ↦ sym there ∙ out
                      | inr (gone, in_place) ↦
                          absurd (let no : none ≡ some c = sym gone ∙ there in ground arith)
                    ],
                  ))
          ])
  ]

  install-extracted :
      (name n : String) (d : Disk C)
      → lookup n (install name d).extracted ≡ (if name == n then none else lookup n d.extracted)
  unfolding install
  install-extracted name n d = elim (Option-cases (lookup name d.extracted)) [
    | inr (c, there) ↦ rw (there, install) (lookup-remove name n d.extracted)
    | inl away ↦
        rw (away, install)
          (elim (same_cases name n) [
            | inl same ↦ rw (same, same_refl n) (rw same at away)
            | inr other ↦ rw other refl
          ])
  ]

  -- After the installation, the entries of the archive are the world.
  pub installed :
      (archive : Assoc String C) (fate : Fate) (k : ℕ) (d : Disk C)
      → SameWorld d.extracted archive
      → ((n : String) → lookup n d.live ≡ none)
      → (each_name fate install (keys d.extracted) k d).0 ≡ true
      → SameWorld (each_name fate install (keys d.extracted) k d).2.live archive
  installed archive fate k d same free went n =
      let gone =
        each_name-clears (λ (x : Disk C). x.extracted) install install-extracted fate
          (keys d.extracted) k d n went in
      let none_left : lookup n (each_name fate install (keys d.extracted) k d).2.extracted ≡ none =
        (elim (keys_cases n d.extracted) [
          | inl (listed, found) ↦ gone ∙ rw listed refl
          | inr (unlisted, away) ↦ gone ∙ rw unlisted away
        ]) in
      let moved =
        each_name-keeps (Moving archive) (λ name. Unit {0}) install
          (λ name x u. install-Moving archive name x) fate (keys d.extracted) k d
          (members-All _ _ (λ name listed. tt)) (λ name. inl (same name, free name)) in
      elim (moved n) [
        | inl (out, no_entry) ↦ no_entry ∙ sym none_left ∙ out
        | inr (taken, in_place) ↦ in_place
      ]
