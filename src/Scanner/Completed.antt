-- ===== src/Scanner/Completed.antt =====
-- What holds of a scan by product scanners that run side by side, while it waits for them and once
-- it is completed.
use mathlib.Core.Path.{subst}
use mathlib.Core.List.{Perm, perm_middle, append_assoc, append-nil, map-append}
use mathlib.Core.List.Perm
use khulnasoft_lab_vulnmap_l.Prelude.Maps.{lookup, UniqueKeys}
use khulnasoft_lab_vulnmap_l.Prelude.{
  ℕ, Text, Bool, true, false, ◌≡◌, refl, sym, ap, ◌∙◌, List, [], ◌∷◌, ◌++◌, map, All, arith, inl,
}
use khulnasoft_lab_vulnmap_l.Externals.{Externals}
use khulnasoft_lab_vulnmap_l.Vulnmap.Product.{Product}
use khulnasoft_lab_vulnmap_l.Config.{Config}
use khulnasoft_lab_vulnmap_l.Folder.{Folder, ScanData, Effect}
use khulnasoft_lab_vulnmap_l.Folder.Results.{or_empty}
use khulnasoft_lab_vulnmap_l.Scanner.{
  ProductScanner, ScanEffect, folder_effect, get_enabled_analysis_types, enabled_products_of,
  announcement, refreshes,
}
use khulnasoft_lab_vulnmap_l.Scanner.Goroutines.{
  called, waiting, completed, Task, scanning, received, ScanState, called_on, prepare,
  begin_product_scans, emit, store_issue, deliver, end_scan, Move, prepares, loads, stores,
  publishes, sends, leaves, OwnStep, begins, works, ends, Step, goes_on, token_changes, returns,
  Reach, start, later,
}
use khulnasoft_lab_vulnmap_l.Scanner.Races.{
  IsGrown, IsSound, IsSafe, IsSafe-start, IsSafe-later, IsSound-later, All-map, All-middle,
  All-replaced, Move-IsSound,
}

abbrev pub products_of : List ScanData → List Product
products_of ds = map (λ (d : ScanData). d.product) ds

abbrev product_in : Task → List Product
product_in (scanning p) = p ∷ []
product_in _ = []

-- The products whose scanners have not returned.
abbrev pub still_scanning : List Task → List Product
still_scanning [] = []
still_scanning (t ∷ ts) = product_in t ++ still_scanning ts

still_scanning-append :
    (ts us : List Task) → still_scanning (ts ++ us) ≡ still_scanning ts ++ still_scanning us
still_scanning-append [] us = refl
still_scanning-append (t ∷ ts) us =
    rw (still_scanning-append ts us)
      (sym (append_assoc (product_in t) (still_scanning ts) (still_scanning us)))

still_scanning-started : (ps : List Product) → still_scanning (map scanning ps) ≡ ps
still_scanning-started [] = refl
still_scanning-started (p ∷ ps) = ap (λ qs. p ∷ qs) (still_scanning-started ps)

started-IsSound : (f : Folder) (ps : List Product) → All (IsSound f []) (map scanning ps)
started-IsSound f [] = tt
started-IsSound f (p ∷ ps) = (tt, started-IsSound f ps)

module _ (x : Externals) (c : Config) (f : Folder) where
  prepare-not_scanning : (seen : _) (d : ScanData) → product_in (prepare f.path seen d) ≡ []
  unfolding prepare
  prepare-not_scanning seen d = ground arith

  -- A goroutine's move is after its product scanner has returned.
  Move-still :
      (s s' : ScanState) (t : Task) (ts : List Task)
      → Move x c f s t ts s'
      → (product_in t ≡ []) × (still_scanning ts ≡ [])
  Move-still s _ _ _ (prepares d seen) =
      (refl, append-nil (product_in (prepare f.path seen d)) ∙ prepare-not_scanning seen d)
  Move-still s _ _ _ (loads d dedup counts i left) = (refl, refl)
  Move-still s _ _ _ (stores d dedup counts i left cached) = (refl, refl)
  Move-still s _ _ _ (publishes d dedup counts seen) = (refl, refl)
  Move-still s _ _ _ (sends e es) = (refl, refl)
  Move-still s _ _ _ leaves = (refl, refl)

  Move-sent :
      (s s' : ScanState) (t : Task) (ts : List Task)
      → Move x c f s t ts s'
      → (es : List Effect) × (s'.sent ≡ s.sent ++ map folder_effect es)
  unfolding store_issue emit
  Move-sent s _ _ _ (prepares d seen) = ([], sym (append-nil s.sent))
  Move-sent s _ _ _ (loads d dedup counts i left) = ([], sym (append-nil s.sent))
  Move-sent s _ _ _ (stores d dedup counts i left cached) = ([], sym (append-nil s.sent))
  Move-sent s _ _ _ (publishes d dedup counts seen) = ([], sym (append-nil s.sent))
  Move-sent s _ _ _ (sends e es) = (e ∷ [], refl)
  Move-sent s _ _ _ leaves = ([], sym (append-nil s.sent))

  Move-phase :
      (s s' : ScanState) (t : Task) (ts : List Task) → Move x c f s t ts s' → s'.phase ≡ s.phase
  unfolding store_issue emit
  Move-phase s _ _ _ (prepares d seen) = refl
  Move-phase s _ _ _ (loads d dedup counts i left) = refl
  Move-phase s _ _ _ (stores d dedup counts i left cached) = refl
  Move-phase s _ _ _ (publishes d dedup counts seen) = refl
  Move-phase s _ _ _ (sends e es) = refl
  Move-phase s _ _ _ leaves = refl

module _ (x : Externals) (c : Config) (scanners : List ProductScanner) (f : Folder) where
  abbrev pub announced : List ScanEffect
  announced = announcement f.path (get_enabled_analysis_types c scanners)

  -- The shape of what is sent: the announcement, what the goroutines send, and `tail`.
  abbrev pub IsTold : List ScanEffect → List ScanEffect → Type 0
  IsTold tail sent = (es : List Effect) × (sent ≡ announced ++ map folder_effect es ++ tail)

  -- What holds from the start of the goroutines on.
  pub record IsPartOf (tail : List ScanEffect) (s : ScanState) : Type 0 where
    pub each_once :
        Perm (products_of s.delivered ++ still_scanning s.tasks) (enabled_products_of scanners)
    pub told : IsTold tail s.sent
    pub sound : All (IsSound f s.delivered) s.tasks
    pub safe : IsSafe f s.delivered s.cache

  -- What holds in each phase.
  pub record IsRun (s : ScanState) : Type 0 where
    pub at_call : s.phase ≡ called → s ≡ called_on f
    pub at_wait : s.phase ≡ waiting → IsPartOf [] s
    pub at_end : s.phase ≡ completed → IsPartOf refreshes s × (s.tasks ≡ [])

  begun-IsPartOf : IsPartOf [] (begin_product_scans x c scanners f true false (called_on f))
  unfolding called_on begin_product_scans
  begun-IsPartOf = record {
    each_once =
        rw (still_scanning-started (enabled_products_of scanners))
          (Perm.refl (enabled_products_of scanners));
    told = ([], sym (append-nil (announced ++ []) ∙ append-nil announced));
    sound = started-IsSound f (enabled_products_of scanners);
    safe = IsSafe-start f;
  }

  begun-IsRun :
      (authenticated cancelled : Bool)
      → IsRun (begin_product_scans x c scanners f authenticated cancelled (called_on f))
  unfolding called_on begin_product_scans
  begun-IsRun false cancelled = record {
    at_call = λ e. cc e;
    at_wait = λ e. cc e;
    at_end = λ e. cc e;
  }
  begun-IsRun true true = record { at_call = λ e. cc e; at_wait = λ e. cc e; at_end = λ e. cc e }
  begun-IsRun true false = record {
    at_call = λ e. cc e;
    at_wait = λ e. begun-IsPartOf;
    at_end = λ e. cc e;
  }

  works-IsPartOf :
      (before after : List Task) (t : Task) (ts : List Task) (s s' : ScanState)
      → s.tasks ≡ before ++ (t ∷ after)
      → Move x c f s t ts s'
      → IsPartOf [] s
      → IsPartOf [] (record s' { tasks = before ++ (ts ++ after) })
  works-IsPartOf before after t ts s s' at move h = record {
    each_once = rw (kept.2) (rw same_products h.each_once);
    told = (
      h.told.0 ++ (Move-sent x c f s s' t ts move).0,
      rw (Move-sent x c f s s' t ts move).1
          (rw (h.told.1) (simp (map-append, append_assoc, append-nil))),
    );
    sound =
        rw (kept.2) (All-replaced (IsSound f s.delivered) before t after ts sound_before kept.0);
    safe = rw (kept.2) kept.1;
  }
    where
      sound_before : All (IsSound f s.delivered) (before ++ (t ∷ after))
      sound_before = rw (← at) h.sound

      kept :
          All (IsSound f s.delivered) ts
          × IsSafe f s.delivered s'.cache
          × (s'.delivered ≡ s.delivered)
      kept =
          Move-IsSound f x c s s' t ts move
            (All-middle (IsSound f s.delivered) before t after sound_before) h.safe

      same_products : still_scanning (before ++ (ts ++ after)) ≡ still_scanning s.tasks
      same_products = rw at (
          simp (
            still_scanning-append,
            (Move-still x c f s s' t ts move).0,
            (Move-still x c f s s' t ts move).1,
          ))

  deliver-IsPartOf :
      (before after : List Task) (d : ScanData) (s : ScanState)
      → s.tasks ≡ before ++ (scanning d.product ∷ after)
      → IsPartOf [] s
      → IsPartOf [] (deliver before after d s)
  unfolding deliver
  deliver-IsPartOf before after d s at h = record {
    each_once = rw (still_scanning-append before (received d ∷ after)) (
        Perm.trans
          (Perm.symm
            (perm_middle (products_of s.delivered) (still_scanning before ++ still_scanning after)))
          (Perm.trans
            (Perm.append (Perm.refl (products_of s.delivered))
              (Perm.symm (perm_middle (still_scanning before) (still_scanning after))))
            once_before));
    told = h.told;
    sound =
        All-replaced (IsSound f (d ∷ s.delivered)) before (scanning d.product) after
          (received d ∷ [])
          (rw (← at) (All-map _ _ s.tasks (IsSound-later f s.delivered d) h.sound)) (inl refl, tt);
    safe = IsSafe-later f s.delivered d s.cache h.safe;
  }
    where
      once_before :
          Perm
            (products_of s.delivered
              ++ (still_scanning before ++ (d.product ∷ still_scanning after)))
            (enabled_products_of scanners)
      once_before =
          rw (← still_scanning-append before (scanning d.product ∷ after)) (rw (← at) h.each_once)

  end-IsPartOf : (s : ScanState) → IsPartOf [] s → IsPartOf refreshes (end_scan s)
  unfolding end_scan
  end-IsPartOf s h = record {
    each_once = h.each_once;
    told = (h.told.0, rw (h.told.1) (simp append-nil));
    sound = h.sound;
    safe = h.safe;
  }

  OwnStep-IsRun : (s t : ScanState) → OwnStep x c scanners f s t → IsRun s → IsRun t
  unfolding end_scan
  OwnStep-IsRun s _ (begins authenticated cancelled e) h =
      rw (h.at_call e) (begun-IsRun authenticated cancelled)
  OwnStep-IsRun s _ (works before after t ts s' e at move) h = record {
    at_call = λ e'. cc (e, e', Move-phase x c f s s' t ts move);
    at_wait = λ e'. works-IsPartOf before after t ts s s' at move (h.at_wait e);
    at_end = λ e'. cc (e, e', Move-phase x c f s s' t ts move);
  }
  OwnStep-IsRun s _ (ends e none_left) h = record {
    at_call = λ e'. cc e';
    at_wait = λ e'. cc e';
    at_end = λ e'. (end-IsPartOf s (h.at_wait e), none_left);
  }

  Step-IsRun : (s t : ScanState) → Step x c scanners f s t → IsRun s → IsRun t
  unfolding deliver
  Step-IsRun s _ (goes_on {t} step) h = OwnStep-IsRun s t step h
  Step-IsRun s _ (token_changes e fresh) h = record {
    at_call = λ e'. cc (e, e');
    at_wait = λ e'. record {
      each_once = (h.at_wait e).each_once;
      told = (h.at_wait e).told;
      sound = (h.at_wait e).sound;
      safe = (h.at_wait e).safe;
    };
    at_end = λ e'. cc (e, e');
  }
  Step-IsRun s _ (returns before after d e at) h = record {
    at_call = λ e'. cc (e, e');
    at_wait = λ e'. deliver-IsPartOf before after d s at (h.at_wait e);
    at_end = λ e'. cc (e, e');
  }

  called-IsRun : IsRun (called_on f)
  unfolding called_on
  called-IsRun = record { at_call = λ e. refl; at_wait = λ e. cc e; at_end = λ e. cc e }

  pub reach-IsRun : (n : ℕ) (s : ScanState) → Reach x c scanners f n s → IsRun s
  reach-IsRun n s start = called-IsRun
  reach-IsRun n s (later r step) = Step-IsRun _ s step (reach-IsRun _ _ r)

  -- However the loads, stores and messages of the goroutines of a scan interleave, whatever they find
  -- and whenever the token changes, a scan that is completed has left the folder's cache with each
  -- file once, if it had each file once, and for every file with the list that it had before and
  -- after it only issues of that file that a product scanner has returned without an error: no race
  -- loses or moves an issue that was there before. Each enabled scanner has delivered once, in some
  -- order, and the messages are the announcement, what the goroutines send, and the two refreshes.
  pub completed-scan :
      (n : ℕ) (s : ScanState)
      → Reach x c scanners f n s
      → s.phase ≡ completed
      → ((p : Text) → IsGrown f s.delivered p (or_empty (lookup p s.cache)))
        × (UniqueKeys f.cache → UniqueKeys s.cache)
        × Perm (products_of s.delivered) (enabled_products_of scanners)
        × IsTold refreshes s.sent
  completed-scan n s r e =
      let (part, none_left) = (reach-IsRun n s r).at_end e in
      (
        part.safe.grown,
        part.safe.unique,
        subst (λ ps. Perm ps (enabled_products_of scanners)) (append-nil (products_of s.delivered))
            (subst
              (λ ts.
                Perm (products_of s.delivered ++ still_scanning ts) (enabled_products_of scanners))
              none_left part.each_once),
        part.told,
      )
