-- ===== src/Monitor/Persistence/Restart.antt =====
-- What a monitor finds when it starts again.
use sbackup.Base.{
  ℕ, String, false, List, [], ◌∷◌, none, some, ok, err, ◌≡◌, refl, sym, ap, ◌∙◌, ◌⊎◌, inl, inr, All,
  ◌==◌, string_eq,
}
use sbackup.Base.Maps.{lookup}
use sbackup.FileStore.{Disk, Faults, Stop, write_file_atomic}
use sbackup.FileStore.Runs.{go_on-call}
use sbackup.FileStore.Atomic.{write_file_atomic-lookup}
use sbackup.Monitor.{Server, Node}
use sbackup.Monitor.Persistence.{Json, to_save, named_nodes, restored, read, load, save}

named_nodes-same :
    (nodes : List (String × Node))
    → All (λ entry. (entry.1.id == "") ≡ false) nodes
    → named_nodes nodes ≡ nodes
unfolding named_nodes
named_nodes-same [] h = refl
named_nodes-same ((id, n) ∷ nodes) (p, h) = rw (p, named_nodes-same nodes h) refl

module _ (json : Json) (data_file : String) (later : Faults) where
  load-reads :
      (d : Disk)
      → ((n : ℕ) → later.ends n ≡ false)
      → ((n : ℕ) → later.error n ≡ none)
      → (load later json data_file d).0
        ≡ read later json data_file (ok tt) (lookup data_file d.files)
  unfolding load
  load-reads d e f = rw (e d.calls, f d.calls) refl

module _ (faults : Faults) (json : Json) (data_file text : String) (s : Server) (d : Disk) where
  save-cases :
      ((n : ℕ) → (faults.temp n == data_file) ≡ false)
      → json.marshal (to_save s) ≡ ok text
      → (((save faults json data_file s d).0 ≡ ok tt)
          × (lookup data_file (save faults json data_file s d).1.files ≡ some text))
        ⊎ ((e : Stop) × ((save faults json data_file s d).0 ≡ err e)
            × ((lookup data_file (save faults json data_file s d).1.files
                  ≡ lookup data_file d.files)
                ⊎ (lookup data_file (save faults json data_file s d).1.files ≡ some text)))
  unfolding save
  save-cases t m = rw m (
      go_on-call faults
        (λ x.
          ((x.0 ≡ ok tt) × (lookup data_file x.1.files ≡ some text))
          ⊎ ((e : Stop) × (x.0 ≡ err e)
              × ((lookup data_file x.1.files ≡ lookup data_file d.files)
                  ⊎ (lookup data_file x.1.files ≡ some text))))
        (write_file_atomic faults data_file text) d.files d.files d
        (λ n.
          write_file_atomic-lookup faults data_file text (record { files = d.files; calls = n })
            (t n))
        (λ e n. inr (e, refl, inl refl)))

-- A monitor that starts again after a save, whichever call of the save failed or was the last of the
-- process, has the state from before or the one that was saved, without its nonces; after a save without
-- an error it has the one that was saved.
pub load-save_state :
    (faults later : Faults) (json : Json) (data_file text : String) (s before : Server) (d : Disk)
    → ((n : ℕ) → (faults.temp n == data_file) ≡ false)
    → json.marshal (to_save s) ≡ ok text
    → json.unmarshal text ≡ ok (to_save s)
    → All (λ entry. (entry.1.id == "") ≡ false) s.nodes
    → ((n : ℕ) → later.ends n ≡ false)
    → ((n : ℕ) → later.error n ≡ none)
    → (load later json data_file d).0 ≡ ok before
    → (((save faults json data_file s d).0 ≡ ok tt)
        × ((load later json data_file (save faults json data_file s d).1).0
            ≡ ok (record s { nonces = [] })))
      ⊎ ((e : Stop) × ((save faults json data_file s d).0 ≡ err e)
          × (((load later json data_file (save faults json data_file s d).1).0 ≡ ok before)
              ⊎ ((load later json data_file (save faults json data_file s d).1).0
                  ≡ ok (record s { nonces = [] }))))
unfolding restored
load-save_state faults later json data_file text s before d t m u named e f b =
    elim (save-cases faults json data_file text s d t m) [
      | inl (r, found) ↦ inl (r, new found)
      | inr (x, r, inl same) ↦ inr (
        x,
        r,
        inl (
            load-reads json data_file later saved e f
            ∙ ap (read later json data_file (ok tt)) same
            ∙ sym (load-reads json data_file later d e f)
            ∙ b),
      )
      | inr (x, r, inr found) ↦ inr (x, r, inr (new found))
    ]
  where
    saved : Disk
    saved = (save faults json data_file s d).1

    new :
        lookup data_file (save faults json data_file s d).1.files ≡ some text
        → (load later json data_file (save faults json data_file s d).1).0
          ≡ ok (record s { nonces = [] })
    new found =
        load-reads json data_file later saved e f
        ∙ ap (read later json data_file (ok tt)) found
        ∙ rw (u, named_nodes-same s.nodes named) refl
