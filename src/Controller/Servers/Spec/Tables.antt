-- ===== src/Controller/Servers/Spec/Tables.antt =====
-- The tables of the document follow the list of servers.
use mum.Common.{
  ℕ, suc, ◌≡◌, ◌⊎◌, inl, inr, refl, Text, text, Bool-cases, Option, some, none, List, [], ◌∷◌, find,
  push, done, ok,
}
use mum.Mumlib.Config.{ServerConfig}
use mum.Controller.Cli.{Toml, Outside, Value, string, Terminal}
use mum.Controller.Servers.{named, position, set_at, remove_at, rename_first, elem_at, name_matches}
use mum.Controller.Servers.Spec.{Reads, IsToml, update_first, delete_first, with_name}

module _ {Doc Table : Type 0} (toml : Toml Doc Table) (o : Outside)
    (reads : Table → Option ServerConfig) where
  pub Reads-push :
      (ts : List Table) (ss : List ServerConfig) (t : Table) (s : ServerConfig)
      → reads t ≡ some s
      → Reads reads ts ss
      → Reads reads (push ts t) (push ss s)
  Reads-push [] [] t s e r = (e, tt)
  Reads-push (u ∷ ts) (v ∷ ss) t s e r = (r.0, Reads-push ts ss t s e r.1)
  Reads-push [] (v ∷ ss) t s e r = absurd r
  Reads-push (u ∷ ts) [] t s e r = absurd r

  -- Where the server is, and what becomes of its table and of the list.
  abbrev pub Updated :
      List Table → List ServerConfig → Text → Text → Value → (ServerConfig → ServerConfig) → Type 0
  Updated ts ss name key v f =
      ((find (named name) ss ≡ none) × (update_first name f ss ≡ none))
      ⊎ ((i : ℕ) × (s : ServerConfig) × (t : Table) × (us : List Table) × (vs : List ServerConfig)
          × (find (named name) ss ≡ some s)
          × (position ss name ≡ some i)
          × (elem_at toml o ts i ≡ some t)
          × (set_at toml o ts i key v ≡ some us)
          × (update_first name f ss ≡ some vs)
          × Reads reads us vs)

  pub update-Updated :
      (name key : Text) (v : Value) (f : ServerConfig → ServerConfig)
      → ((t : Table) (s : ServerConfig)
          → reads t ≡ some s
          → reads (toml.set_field t key v) ≡ some (f s))
      → (ts : List Table) (ss : List ServerConfig) → Reads reads ts ss
      → Updated ts ss name key v f
  unfolding position set_at update_first
  update-Updated name key v f g [] [] r = inl (refl, refl)
  update-Updated name key v f g [] (s ∷ ss) r = absurd r
  update-Updated name key v f g (t ∷ ts) [] r = absurd r
  update-Updated name key v f g (t ∷ ts) (s ∷ ss) r = elim (Bool-cases (named name s)) [
    | inl same ↦ inr (
      0,
      s,
      t,
      toml.set_field t key v ∷ ts,
      f s ∷ ss,
      rw same refl,
      rw same refl,
      refl,
      refl,
      rw same refl,
      (g t s r.0, r.1),
    )
    | inr other ↦ elim (update-Updated name key v f g ts ss r.1) [
      | inl missing ↦ inl (rw (other, missing.0) refl, rw (other, missing.1) refl)
      | inr (i, s', t', us, vs, finds, at_i, elem, sets, updates, read) ↦ inr (
        suc i,
        s',
        t',
        t ∷ us,
        s ∷ vs,
        rw (other, finds) refl,
        rw (other, at_i) refl,
        elem,
        rw sets refl,
        rw (other, updates) refl,
        (r.0, read),
      )
    ]
  ]

  abbrev pub Removed : List Table → List ServerConfig → Text → Type 0
  Removed ts ss name =
      ((position ss name ≡ none) × (delete_first name ss ≡ none))
      ⊎ ((i : ℕ) × (us : List Table) × (vs : List ServerConfig) × (position ss name ≡ some i)
          × (remove_at toml o ts i ≡ some us)
          × (delete_first name ss ≡ some vs)
          × Reads reads us vs)

  pub delete-Removed :
      (name : Text) (ts : List Table) (ss : List ServerConfig)
      → Reads reads ts ss
      → Removed ts ss name
  unfolding position remove_at delete_first
  delete-Removed name [] [] r = inl (refl, refl)
  delete-Removed name [] (s ∷ ss) r = absurd r
  delete-Removed name (t ∷ ts) [] r = absurd r
  delete-Removed name (t ∷ ts) (s ∷ ss) r = elim (Bool-cases (named name s)) [
    | inl same ↦ inr (0, ts, ss, rw same refl, refl, rw same refl, r.1)
    | inr other ↦ elim (delete-Removed name ts ss r.1) [
      | inl missing ↦ inl (rw (other, missing.0) refl, rw (other, missing.1) refl)
      | inr (i, us, vs, at_i, removes, deletes, read) ↦ inr (
        suc i,
        t ∷ us,
        s ∷ vs,
        rw (other, at_i) refl,
        rw removes refl,
        rw (other, deletes) refl,
        (r.0, read),
      )
    ]
  ]

  abbrev pub Renamed : List Table → List ServerConfig → Text → Text → Type 0
  Renamed ts ss old new =
      ((update_first old (with_name new) ss ≡ none)
        × ((x : Terminal) → rename_first toml o ts old new x ≡ done (x, ok none)))
      ⊎ ((us : List Table) × (vs : List ServerConfig) × (update_first old (with_name new) ss
            ≡ some vs)
          × ((x : Terminal) → rename_first toml o ts old new x ≡ done (x, ok (some us)))
          × Reads reads us vs)

  pub rename-Renamed :
      (old new : Text)
      → IsToml toml o reads
      → (ts : List Table) (ss : List ServerConfig) → Reads reads ts ss
      → Renamed ts ss old new
  unfolding rename_first update_first
  rename-Renamed old new l [] [] r = inl (refl, λ x. refl)
  rename-Renamed old new l [] (s ∷ ss) r = absurd r
  rename-Renamed old new l (t ∷ ts) [] r = absurd r
  rename-Renamed old new l (t ∷ ts) (s ∷ ss) r =
      let name = l.reads_name t s r.0 in
      elim (Bool-cases (named old s)) [
        | inl same ↦ inr (
          toml.set_field t (text "name") (string new) ∷ ts,
          with_name new s ∷ ss,
          rw same refl,
          (λ x. rw (name_matches, name, same) refl),
          (l.reads-set_name t s new r.0, r.1),
        )
        | inr other ↦ elim (rename-Renamed old new l ts ss r.1) [
          | inl missing ↦
              inl
                (rw (other, missing.0) refl, λ x. rw (name_matches, name, other, missing.1 x) refl)
          | inr (us, vs, updates, renames, read) ↦ inr (
            t ∷ us,
            s ∷ vs,
            rw (other, updates) refl,
            (λ x. rw (name_matches, name, other, renames x) refl),
            (r.0, read),
          )
        ]
      ]
