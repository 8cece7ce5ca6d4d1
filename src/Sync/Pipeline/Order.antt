-- ===== src/Sync/Pipeline/Order.antt =====
-- The batches arrive in order, without a gap, and the range is complete only at its end.
use mathlib.Core.List.{append_assoc, append-nil}
use zbag_app_tauri.Base.{
  ℕ, ◌+◌, ◌≤◌, ◌<◌, min, ◌≡◌, ◌≢◌, refl, sym, ap, ◌∙◌, subst, List, [], ◌∷◌, ◌++◌, arith,
}
use zbag_app_tauri.Sync.Pipeline.{
  Message, Sender, Pipe, after_message, moved_to, start_pipe, Step, Reach, batch, range_complete,
  download_error, download_cancelled, loading, ended, sending, dropped, sees_cancel, loads, fails,
  completes, sends, gives_up, receives, leaves, aborts, drops, here, next,
}

-- Batches one after the other from `a`, up to the end of the range at most; a message of another
-- kind is the last one, and the range is complete at its end.
abbrev pub Chain : ℕ → ℕ → List Message → Type 0
Chain end a [] = Unit {0}
Chain end a (batch b c ∷ ms) = (a ≡ b) × (b < c) × (c ≤ end) × Chain end c ms
Chain end a (range_complete ∷ ms) = (a ≡ end) × (ms ≡ [])
Chain end a (download_error ∷ ms) = ms ≡ []
Chain end a (download_cancelled ∷ ms) = ms ≡ []

-- Batches only, which end at `z`.
abbrev Covers : ℕ → ℕ → ℕ → List Message → Type 0
Covers end a z [] = a ≡ z
Covers end a z (batch b c ∷ ms) = (a ≡ b) × (b < c) × (c ≤ end) × Covers end c z ms
Covers end a z (m ∷ ms) = ⊥

Covers-Chain : (end a z : ℕ) (ms : List Message) → Covers end a z ms → Chain end a ms
Covers-Chain end a z [] h = tt
Covers-Chain end a z (batch b c ∷ ms) (e, l, k, h) = (e, l, k, Covers-Chain end c z ms h)
Covers-Chain end a z (range_complete ∷ ms) h = elim h [ ]
Covers-Chain end a z (download_error ∷ ms) h = elim h [ ]
Covers-Chain end a z (download_cancelled ∷ ms) h = elim h [ ]

-- What the download task may send next.
abbrev Fits : ℕ → ℕ → Message → Type 0
Fits end z (batch b c) = (z ≡ b) × (b < c) × (c ≤ end)
Fits end z range_complete = z ≡ end
Fits end z download_error = Unit {0}
Fits end z download_cancelled = Unit {0}

Chain-append :
    (end a z : ℕ) (ms : List Message) (m : Message)
    → Covers end a z ms
    → Fits end z m
    → Chain end a (ms ++ (m ∷ []))
Chain-append end a z [] (batch b c) h (e, l, k) = (h ∙ e, l, k, tt)
Chain-append end a z [] range_complete h f = (h ∙ f, refl)
Chain-append end a z [] download_error h f = refl
Chain-append end a z [] download_cancelled h f = refl
Chain-append end a z (batch b c ∷ ms) m (e, l, k, h) f = (e, l, k, Chain-append end c z ms m h f)
Chain-append end a z (range_complete ∷ ms) m h f = elim h [ ]
Chain-append end a z (download_error ∷ ms) m h f = elim h [ ]
Chain-append end a z (download_cancelled ∷ ms) m h f = elim h [ ]

Covers-append :
    (end a z b c : ℕ) (ms : List Message)
    → Covers end a z ms
    → Fits end z (batch b c)
    → Covers end a c (ms ++ (batch b c ∷ []))
Covers-append end a z b c [] h (e, l, k) = (h ∙ e, l, k, refl)
Covers-append end a z b c (batch x y ∷ ms) (e, l, k, h) f =
    (e, l, k, Covers-append end y z b c ms h f)
Covers-append end a z b c (range_complete ∷ ms) h f = elim h [ ]
Covers-append end a z b c (download_error ∷ ms) h f = elim h [ ]
Covers-append end a z b c (download_cancelled ∷ ms) h f = elim h [ ]

Chain-prefix : (end a : ℕ) (ms ns : List Message) → Chain end a (ms ++ ns) → Chain end a ms
Chain-prefix end a [] ns h = tt
Chain-prefix end a (batch b c ∷ ms) ns (e, l, k, h) = (e, l, k, Chain-prefix end c ms ns h)
Chain-prefix end a (range_complete ∷ []) ns h = (h.0, refl)
Chain-prefix end a (range_complete ∷ m ∷ ms) ns h = cc
Chain-prefix end a (download_error ∷ []) ns h = refl
Chain-prefix end a (download_error ∷ m ∷ ms) ns h = cc
Chain-prefix end a (download_cancelled ∷ []) ns h = refl
Chain-prefix end a (download_cancelled ∷ m ∷ ms) ns h = cc

-- Where the download task stands, as long as anything can be sent.
abbrev Standing : ℕ → ℕ → List Message → ℕ → Sender → Type 0
Standing end a ms z loading = Covers end a z ms × (z ≤ end)
Standing end a ms z (sending m) = Covers end a z ms × Fits end z m
Standing end a ms z ended = Unit {0}

record IsOrdered (a : ℕ) (p : Pipe) : Type 0 where
  chain : Chain p.range_end a (p.delivered ++ p.queue)
  standing :
      p.receiver ≢ dropped → Standing p.range_end a (p.delivered ++ p.queue) p.current p.sender

module _ (a : ℕ) where
  loaded :
      (p : Pipe) (m : Message)
      → IsOrdered a p
      → p.sender ≡ loading
      → (p.current ≤ p.range_end → Fits p.range_end p.current m)
      → IsOrdered a (record p { sender = sending m })
  loaded p m h l f = record {
    chain = h.chain;
    standing = λ d.
        let s : Standing p.range_end a (p.delivered ++ p.queue) p.current loading =
          subst (Standing p.range_end a (p.delivered ++ p.queue) p.current) l (h.standing d) in
        (s.0, f s.1);
  }

  Standing-after :
      (end z : ℕ) (ms : List Message) (m : Message)
      → Covers end a z ms
      → Fits end z m
      → Standing end a (ms ++ (m ∷ [])) (moved_to z m) (after_message m)
  Standing-after end z ms (batch b c) h f = (Covers-append end a z b c ms h f, f.2)
  Standing-after end z ms range_complete h f = tt
  Standing-after end z ms download_error h f = tt
  Standing-after end z ms download_cancelled h f = tt

  Step-IsOrdered : {p q : Pipe} → Step p q → IsOrdered a p → IsOrdered a q
  Step-IsOrdered {p} (sees_cancel l c) h = loaded p download_cancelled h l (λ k. tt)
  Step-IsOrdered {p} (loads size z l c) h =
      loaded p (batch p.current (min (p.current + size) p.range_end)) h l
        (λ k. (refl, omega arith, omega arith))
  Step-IsOrdered {p} (fails l c) h = loaded p download_error h l (λ k. tt)
  Step-IsOrdered {p} (completes l c) h = loaded p range_complete h l (λ k. omega arith)
  Step-IsOrdered {p} (sends m s c d) h =
      let st : Standing p.range_end a (p.delivered ++ p.queue) p.current (sending m) =
        subst (Standing p.range_end a (p.delivered ++ p.queue) p.current) s (h.standing d) in
      let same = append_assoc p.delivered p.queue (m ∷ []) in
      record {
        chain =
            subst (Chain p.range_end a) same (Chain-append p.range_end a p.current _ m st.0 st.1);
        standing = λ d'.
            subst
              (λ (ms : List Message).
                Standing p.range_end a ms (moved_to p.current m) (after_message m))
              same (Standing-after p.range_end p.current _ m st.0 st.1);
      }
  Step-IsOrdered {p} (gives_up m s d) h = record { chain = h.chain; standing = λ d'. absurd (d' d) }
  Step-IsOrdered {p} (receives m rest r q) h =
      let same : p.delivered ++ p.queue ≡ (p.delivered ++ (m ∷ [])) ++ rest =
        ap (λ (l : List Message). p.delivered ++ l) q
        ∙ sym (append_assoc p.delivered (m ∷ []) rest) in
      record {
        chain = subst (Chain p.range_end a) same h.chain;
        standing = λ d.
            subst (λ (ms : List Message). Standing p.range_end a ms p.current p.sender) same
              (h.standing d);
      }
  Step-IsOrdered {p} (leaves r) h = record {
    chain = h.chain;
    standing = λ d. h.standing (λ e. let f = sym r ∙ e in cc);
  }
  Step-IsOrdered {p} (drops r) h = record {
    chain =
        subst (Chain p.range_end a) (sym (append-nil p.delivered))
          (Chain-prefix p.range_end a p.delivered p.queue h.chain);
    standing = λ d. absurd (d refl);
  }
  Step-IsOrdered {p} (aborts r) h = record {
    chain =
        subst (Chain p.range_end a) (sym (append-nil p.delivered))
          (Chain-prefix p.range_end a p.delivered p.queue h.chain);
    standing = λ d. absurd (d refl);
  }

  Reach-IsOrdered : {p q : Pipe} → IsOrdered a p → Reach p q → IsOrdered a q
  Reach-IsOrdered h here = h
  Reach-IsOrdered h (next r s) = Step-IsOrdered s (Reach-IsOrdered h r)

  -- At every point of a run the scan has received batches of blocks one after the other, without a
  -- gap, from the start of the range up to its end at most; a message that is no batch is the last
  -- one, and the range was called complete only when the batches reached its end.
  pub run-Chain :
      (range_end : ℕ) (p : Pipe)
      → a ≤ range_end
      → Reach (start_pipe a range_end) p
      → Chain p.range_end a p.delivered
  run-Chain range_end p l r =
      let h : IsOrdered a (start_pipe a range_end) = record {
        chain = tt;
        standing = λ d. (refl, l);
      } in
      Chain-prefix p.range_end a p.delivered p.queue (Reach-IsOrdered h r).chain
