-- ===== src/Demo/Employer/Scan.antt =====
-- Proofs about `loadDashboard` (demo/src/useEmployerDashboard.ts).
use Prim.Native.String.{String}
use paystream_contracts.Prelude.{
  ℕ, zero, suc, ◌+◌, ◌-◌, ◌<◌, ◌≡◌, refl, ap, false, true, min, arith, List, [], ◌∷◌, ◌++◌,
  append_assoc, append-nil, ◌∙◌, none, some, if◌then◌else◌,
}
use paystream_contracts.Prelude.Int.{ℤ, pos}
use paystream_contracts.Js.{Error, Result, ok, err, Io, is_text, error_text, ◌>>◌, pure, modify}
use paystream_contracts.Js.Laws.{bind_ok, bind_returned}
use paystream_contracts.Js.Double.{to_number_exact, exact_limit}
use paystream_contracts.Sdk.Types.{Stream}
use paystream_contracts.Sdk.Platform.{Platform}
use paystream_contracts.Sdk.Client
use paystream_contracts.Sdk.Client.{Client}
use paystream_contracts.Sdk.Freighter.{Wallet}
use paystream_contracts.Demo.Employer.{
  Dashboard, max_scan, scan_one, scan, load_dashboard, scan_chain, scan_all, add_if_owned,
}

-- The stream, if it was read and belongs to the employer.
abbrev pub owned : String → Result Stream → List Stream
owned key (ok s) = if is_text s.employer key then s ∷ [] else []
owned key (err _) = []

-- The employer's streams among the `k` that follow `start`, from the last to the first.
abbrev pub owned_between : String → (ℕ → Result Stream) → ℕ → ℕ → List Stream
owned_between key view start zero = []
owned_between key view start (suc k) =
    owned key (view (start + k)) ++ owned_between key view start k

module _ (p : Platform) (c : Client p) (api : Wallet p.World) (to_string : ℤ → String)
    (passphrase key : String) (view : ℕ → Result Stream)
    (stable : (i : ℕ) (w : p.World) → (Client.get_stream p c (pos i) w).0 ≡ view i) where
  open p use {World}

  scan_one_lem :
      (i : ℕ) (found : List Stream) (s : Dashboard World)
      → s.streams ≡ found
      → scan_one p c api to_string passphrase key i found s ≡ (
        ok (found ++ owned key (view i)),
        record s {
          streams = found ++ owned key (view i);
          world = (Client.get_stream p c (pos i) s.world).1;
        },
      )
  unfolding scan_one add_if_owned
  scan_one_lem i found s e = ground (arith, stable i s.world, append-nil found)

  -- What a scan leaves: the array that it returns is the state's, only the world has changed
  -- besides, and the count is that of the last round.
  pub record IsScan (s t : Dashboard World) (streams : List Stream) (scanned : ℕ) : Type 0 where
    pub found : t.streams ≡ streams
    pub counted : t.scanned ≡ scanned
    pub same_key : t.public_key ≡ s.public_key
    pub same_error : t.error ≡ s.error
    pub same_total : t.chain_total ≡ s.chain_total
    pub same_hashes : t.last_tx_hashes ≡ s.last_tx_hashes

  abbrev last_count : ℕ → ℕ → ℕ → Dashboard World → ℕ
  last_count total start zero s = s.scanned
  last_count total start (suc k) s = total - start

  -- The state after the round at index `i`.
  abbrev after_round : ℕ → ℕ → List Stream → Dashboard World → Dashboard World
  after_round total i found s = record s {
    streams = found ++ owned key (view i);
    scanned = total - i;
    world = (Client.get_stream p c (pos i) s.world).1;
  }

  -- What follows the round at index `start + k`.
  abbrev later : ℕ → ℕ → ℕ → List Stream → Io (Dashboard World) (List Stream)
  later total start k found =
      modify (λ s. record s { scanned = total - (start + k) })
      >> scan p c api to_string passphrase key total start k found

  scan_round :
      (total start k : ℕ) (found : List Stream) (s : Dashboard World)
      → s.streams ≡ found
      → scan p c api to_string passphrase key total start (suc k) found s
        ≡ scan p c api to_string passphrase key total start k
            (found ++ owned key (view (start + k)))
            (after_round total (start + k) found s)
  unfolding scan
  scan_round total start k found s e =
      bind_ok (scan_one p c api to_string passphrase key (start + k) found) (later total start k) s
        (record s {
          streams = found ++ owned key (view (start + k));
          world = (Client.get_stream p c (pos (start + k)) s.world).1;
        })
        (found ++ owned key (view (start + k))) (scan_one_lem (start + k) found s e)

  last_count_round :
      (total start k : ℕ) (found : List Stream) (s : Dashboard World)
      → last_count total start k (after_round total (start + k) found s) ≡ total - start
  last_count_round total start zero found s = omega arith
  last_count_round total start (suc k) found s = refl

  scan_lem :
      (total start k : ℕ) (found : List Stream) (s : Dashboard World)
      → s.streams ≡ found
      → let (r, t) = scan p c api to_string passphrase key total start k found s in
        (r ≡ ok (found ++ owned_between key view start k))
        × IsScan s t (found ++ owned_between key view start k) (last_count total start k s)
  unfolding scan
  scan_lem total start zero found s e = ground (arith, append-nil found)
  scan_lem total start (suc k) found s e =
      let here = owned key (view (start + k)) in
      let next = after_round total (start + k) found s in
      let (r, t) = scan_lem total start k (found ++ here) next refl in
      rw (scan_round total start k found s e) (
        r ∙ ap ok (append_assoc found here (owned_between key view start k)),
        record {
          found = t.found ∙ append_assoc found here (owned_between key view start k);
          counted = t.counted ∙ last_count_round total start k found s;
          same_key = t.same_key;
          same_error = t.same_error;
          same_total = t.same_total;
          same_hashes = t.same_hashes;
        },
      )

  last_count_pos :
      (total start k : ℕ) (s : Dashboard World) → 0 < k → last_count total start k s ≡ total - start
  last_count_pos total start zero s h = absurd (omega arith)
  last_count_pos total start (suc k) s h = refl

  abbrev newest : ℕ → List Stream
  newest n = owned_between key view (n - max_scan) (n - (n - max_scan))

  scan_all_some :
      (n : ℕ) (s : Dashboard World)
      → 0 < n
      → let start = n - max_scan in
        scan_all p c api to_string passphrase key (pos n) s
        ≡ (scan p c api to_string passphrase key n start (n - start) [] >> pure tt) s
  unfolding scan_all
  scan_all_some n s h = ground arith

  scan_all_lem :
      (n : ℕ) (s : Dashboard World)
      → s.streams ≡ []
      → s.scanned ≡ 0
      → let (r, t) = scan_all p c api to_string passphrase key (pos n) s in
        (r ≡ ok tt) × IsScan s t (newest n) (min n max_scan)
  unfolding scan_all
  scan_all_lem zero s e i = ground arith
  scan_all_lem (suc n) s e i =
      let start = suc n - max_scan in
      let (r, t) = scan_lem (suc n) start (suc n - start) [] s e in
      let here = last_count_pos (suc n) start (suc n - start) s (omega arith) in
      let done =
        scan_all_some (suc n) s (omega arith)
        ∙ bind_returned (scan p c api to_string passphrase key (suc n) start (suc n - start) [])
            (λ _. pure tt) s _ r in
      rw done (
        refl,
        record {
          found = t.found;
          counted = t.counted ∙ here ∙ omega arith;
          same_key = t.same_key;
          same_error = t.same_error;
          same_total = t.same_total;
          same_hashes = t.same_hashes;
        },
      )

  -- After `setLoading(true)` and the other resets.
  abbrev reset : Dashboard World → Dashboard World
  reset s = record s { loading = true; error = none; streams = []; scanned = 0 }

  -- After the number of streams has come.
  abbrev counted_state : Dashboard World → ℤ → World → Dashboard World
  counted_state s total w = record (reset s) { chain_total = total; world = w }

  load_counted :
      (n : ℕ) (w : World) (s : Dashboard World)
      → n < exact_limit
      → Client.stream_count p c s.world ≡ (ok (pos n), w)
      → scan_chain p c api to_string passphrase key (reset s)
        ≡ scan_all p c api to_string passphrase key (pos n) (counted_state s (pos n) w)
  unfolding scan_chain
  load_counted n w s small counted = ground (arith, to_number_exact n small)

  -- A dashboard that loads shows, newest first, the employer's readable streams among the newest
  -- 200 of the chain (among all, if there are fewer), and reports how many it has looked at; it
  -- is no longer loading and shows no error. This supposes fewer than 2^53 streams, a server that
  -- counts them, and readings that do not change during the scan.
  pub load_dashboard_lem :
      (n : ℕ) (w : World) (s : Dashboard World)
      → n < exact_limit
      → Client.stream_count p c s.world ≡ (ok (pos n), w)
      → let t = (load_dashboard p c api to_string passphrase key s).1 in
        (t.streams ≡ owned_between key view (n - max_scan) (n - (n - max_scan)))
        × (t.scanned ≡ min n max_scan)
        × (t.chain_total ≡ pos n)
        × (t.error ≡ none)
        × (t.loading ≡ false)
  unfolding load_dashboard
  load_dashboard_lem n w s small counted =
      let (r, t) = scan_all_lem n (counted_state s (pos n) w) refl refl in
      ground (arith, load_counted n w s small counted, r, t)

  -- If the number of streams cannot be read, the dashboard shows the error and no stream.
  pub load_dashboard_uncounted :
      (e : Error) (w : World) (s : Dashboard World)
      → Client.stream_count p c s.world ≡ (err e, w)
      → load_dashboard p c api to_string passphrase key s
        ≡ (ok tt, record (reset s) { error = some (error_text e); loading = false; world = w })
  unfolding load_dashboard scan_chain
  load_dashboard_uncounted e w s failed = ground arith
