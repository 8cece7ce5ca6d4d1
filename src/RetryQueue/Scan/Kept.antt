-- ===== src/RetryQueue/Scan/Kept.antt =====
-- Which entries a scan keeps.
use zbag_app_tauri.Base.{
  ℕ, ◌≡◌, ◌∙◌, refl, sym, true, List, [], ◌∷◌, some, Text, ◌==◌, arith, ==_refl, Bool-cases, inl,
  inr, some_eq, ==→eq, ◌⊎◌,
}
use zbag_app_tauri.Base.Int.{ℤ}
use zbag_app_tauri.Base.Maps.{Map, lookup, insert, remove, Distinct, lookup-insert, lookup-remove}
use zbag_app_tauri.RetryQueue.{QueuedBroadcastMeta, normalize_queued_broadcast_meta}
use zbag_app_tauri.RetryQueue.Policy.{IsNormal, normalize-IsNormal}
use zbag_app_tauri.RetryQueue.Scan.{
  MetaFile, unreadable, unparseable, parsed, QueueFile, is_retained, Scanned, scan_parsed,
  scan_file, scan_files,
}

Distinct-remove : (k : ℕ) (m : Map QueuedBroadcastMeta) → Distinct m → Distinct (remove k m)
unfolding lookup remove
Distinct-remove k [] d = tt
Distinct-remove k ((i, w) ∷ m) d = ground (arith, Distinct-remove k m d.1, lookup-remove k i m)

Distinct-insert :
    (k : ℕ) (v : QueuedBroadcastMeta) (m : Map QueuedBroadcastMeta)
    → Distinct m
    → Distinct (insert k v m)
unfolding insert
Distinct-insert k v m d = (rw (lookup-remove k k m, ==_refl k) tt, Distinct-remove k m d)

-- The file is one of the list.
abbrev pub Occurs : QueueFile → List QueueFile → Type 0
Occurs f [] = ⊥
Occurs f (g ∷ gs) = (g ≡ f) ⊎ Occurs f gs

-- Where an entry comes from: a file of that id, whose bytes are there, and which is not too old.
pub record IsKept (to_lowercase : Text → Text) (now : ℕ) (now_ms : ℤ) (j : ℕ)
    (files : List QueueFile) (meta : QueuedBroadcastMeta) : Type 0 where
  pub on_disk : QueuedBroadcastMeta
  pub file : QueueFile
  pub listed : Occurs file files
  pub named : file.txid ≡ j
  pub has_bytes : file.has_bin ≡ true
  pub read : file.meta ≡ parsed on_disk
  pub normalized : meta ≡ normalize_queued_broadcast_meta to_lowercase on_disk now_ms
  pub retained : is_retained now meta ≡ true

module _ (to_lowercase : Text → Text) (now : ℕ) (now_ms : ℤ) where
  -- All entries come from the files of the directory.
  abbrev pub FromFiles : List QueueFile → Map QueuedBroadcastMeta → Type 0
  FromFiles files m =
      (j : ℕ) (meta : QueuedBroadcastMeta)
      → lookup j m ≡ some meta
      → IsKept to_lowercase now now_ms j files meta

  scan_parsed-Distinct :
      (f : QueueFile) (meta : QueuedBroadcastMeta) (s : Scanned)
      → Distinct s.entries
      → Distinct (scan_parsed to_lowercase now now_ms f meta s).entries
  scan_parsed-Distinct f meta s d = ground (arith, Distinct-insert f.txid meta s.entries d)

  scan_file-Distinct :
      (f : QueueFile) (file : MetaFile) (s : Scanned)
      → Distinct s.entries
      → Distinct (scan_file to_lowercase now now_ms f file s).entries
  scan_file-Distinct f unreadable s d = d
  scan_file-Distinct f unparseable s d = d
  scan_file-Distinct f (parsed m) s d =
      scan_parsed-Distinct f (normalize_queued_broadcast_meta to_lowercase m now_ms) s d

  pub scan_files-Distinct :
      (files : List QueueFile) (s : Scanned)
      → Distinct s.entries
      → Distinct (scan_files to_lowercase now now_ms files s).entries
  unfolding scan_files
  scan_files-Distinct [] s d = d
  scan_files-Distinct (f ∷ rest) s d =
      scan_files-Distinct rest (scan_file to_lowercase now now_ms f f.meta s)
        (scan_file-Distinct f f.meta s d)

  insert-FromFiles :
      (files : List QueueFile) (f : QueueFile) (m meta : QueuedBroadcastMeta)
      (entries : Map QueuedBroadcastMeta)
      → Occurs f files
      → f.has_bin ≡ true
      → f.meta ≡ parsed m
      → meta ≡ normalize_queued_broadcast_meta to_lowercase m now_ms
      → is_retained now meta ≡ true
      → FromFiles files entries
      → FromFiles files (insert f.txid meta entries)
  insert-FromFiles files f m meta entries l b p n r k j found h = elim (Bool-cases (f.txid == j)) [
    | inl e ↦
        let q : meta ≡ found =
          some_eq meta found (ground (arith, h, lookup-insert f.txid j meta entries)) in
        record {
          on_disk = m;
          file = f;
          listed = l;
          named = ==→eq f.txid j e;
          has_bytes = b;
          read = p;
          normalized = sym q ∙ n;
          retained = rw (← q) r;
        }
    | inr e ↦ k j found (ground (arith, h, lookup-insert f.txid j meta entries))
  ]

  scan_parsed-FromFiles :
      (files : List QueueFile) (f : QueueFile) (m : QueuedBroadcastMeta) (s : Scanned)
      → Occurs f files
      → f.meta ≡ parsed m
      → FromFiles files s.entries
      → FromFiles files
          (scan_parsed to_lowercase now now_ms f
            (normalize_queued_broadcast_meta to_lowercase m now_ms)
            s).entries
  scan_parsed-FromFiles files f m s l p k =
      let meta = normalize_queued_broadcast_meta to_lowercase m now_ms in
      elim (Bool-cases f.has_bin) [
        | inr b ↦ rw b k
        | inl b ↦ elim (Bool-cases (is_retained now meta)) [
          | inr r ↦ rw (b, r) k
          | inl r ↦ rw (b, r) (insert-FromFiles files f m meta s.entries l b p refl r k)
        ]
      ]

  scan_file-FromFiles :
      (files : List QueueFile) (f : QueueFile) (file : MetaFile) (s : Scanned)
      → Occurs f files
      → f.meta ≡ file
      → FromFiles files s.entries
      → FromFiles files (scan_file to_lowercase now now_ms f file s).entries
  scan_file-FromFiles files f unreadable s l p k = k
  scan_file-FromFiles files f unparseable s l p k = k
  scan_file-FromFiles files f (parsed m) s l p k = scan_parsed-FromFiles files f m s l p k

  pub scan_files-FromFiles :
      (all files : List QueueFile) (s : Scanned)
      → ((f : QueueFile) → Occurs f files → Occurs f all)
      → FromFiles all s.entries
      → FromFiles all (scan_files to_lowercase now now_ms files s).entries
  unfolding scan_files
  scan_files-FromFiles all [] s l k = k
  scan_files-FromFiles all (f ∷ rest) s l k =
      scan_files-FromFiles all rest (scan_file to_lowercase now now_ms f f.meta s)
        (λ g h. l g (inr h)) (scan_file-FromFiles all f f.meta s (l f (inl refl)) refl k)

  pub empty-FromFiles : (files : List QueueFile) → FromFiles files []
  unfolding lookup
  empty-FromFiles files j meta h = cc

  pub IsKept-IsNormal :
      (j : ℕ) (files : List QueueFile) (meta : QueuedBroadcastMeta)
      → IsKept to_lowercase now now_ms j files meta
      → IsNormal meta
  IsKept-IsNormal j files meta k =
      rw k.normalized (normalize-IsNormal to_lowercase k.on_disk now_ms)
