-- ===== src/Memphy/Frames.antt =====
-- The free-frame list of a device and a stack of frame numbers.
use hk252_co2017_nhom2_btl.Prelude.{
  Chain, List, Outcome, [], arith, count_up, end, failure, node, of_list, ok, refl, suc, success,
  zero, ℕ, ℤ, ◌+◌, ◌>>=◌, ◌∷◌, ◌≡◌,
}
use hk252_co2017_nhom2_btl.Memphy.{Memphy, get_freefp, put_freefp, fill_frames}

-- A client's call: MEMPHY_get_freefp with the old content of its out-parameter, or
-- MEMPHY_put_freefp.
pub data Op : Type 0 where
  get : (retfpn : ℕ) → Op
  put : (fpn : ℕ) → Op

-- The status and the out-parameter after a call.
abbrev pub Reply : Type 0
Reply = ℤ × ℕ

abbrev pub with_frames : Memphy → Chain ℕ → Memphy
with_frames mp frames = record mp { free_fp_list = frames }

pub step : Memphy → Op → Outcome (Reply × Memphy)
step mp (get retfpn) = do (status, mp', fpn) ← get_freefp mp retfpn; ok ((status, fpn), mp')
step mp (put fpn) = let (status, mp') = put_freefp mp fpn in ok ((status, fpn), mp')

pub run : Memphy → List Op → Outcome (List Reply × Memphy)
run mp [] = ok ([], mp)
run mp (o ∷ ops) = do (r, mp') ← step mp o; (rs, mp'') ← run mp' ops; ok (r ∷ rs, mp'')

-- The contract: a stack, which refuses a pop where it is empty.
abbrev pub stack_step : List ℕ → Op → Reply × List ℕ
stack_step [] (get retfpn) = ((failure, retfpn), [])
stack_step (f ∷ fs) (get retfpn) = ((success, f), fs)
stack_step fs (put fpn) = ((success, fpn), fpn ∷ fs)

unfoldable pub stack_run : List ℕ → List Op → List Reply × List ℕ
stack_run fs [] = ([], fs)
stack_run fs (o ∷ ops) =
    let (r, fs') = stack_step fs o in let (rs, fs'') = stack_run fs' ops in (r ∷ rs, fs'')

step_refines :
    (mp : Memphy) (fs : List ℕ) (o : Op)
    → step (with_frames mp (of_list fs)) o
      ≡ ok ((stack_step fs o).0, with_frames mp (of_list (stack_step fs o).1))
unfolding step get_freefp put_freefp
step_refines mp [] (get r) = refl
step_refines mp (f ∷ fs) (get r) = refl
step_refines mp [] (put f) = refl
step_refines mp (f ∷ fs) (put g) = refl

-- Whatever sequence of MEMPHY_get_freefp and MEMPHY_put_freefp a client calls, a device whose free
-- list ends in NULL answers as the stack of its frames, without a fault, and is left with the list
-- that the stack describes.
pub run_refines :
    (ops : List Op) (mp : Memphy) (fs : List ℕ)
    → run (with_frames mp (of_list fs)) ops
      ≡ ok ((stack_run fs ops).0, with_frames mp (of_list (stack_run fs ops).1))
unfolding run stack_run
run_refines [] mp fs = refl
run_refines (o ∷ ops) mp fs =
    rw (step_refines mp fs o) (rw (run_refines ops mp (stack_step fs o).1))

pub fill_frames-count_up : (n i : ℕ) → fill_frames n i ≡ of_list (count_up i n)
unfolding fill_frames
fill_frames-count_up zero i = refl
fill_frames-count_up (suc n) i = ground (arith, fill_frames-count_up n (i + 1))

pub get_freefp-node :
    (mp : Memphy) (f retfpn : ℕ) (frames : Chain ℕ)
    → get_freefp (with_frames mp (node f frames)) retfpn ≡ ok (success, with_frames mp frames, f)
unfolding get_freefp
get_freefp-node mp f retfpn frames = refl

pub get_freefp-end :
    (mp : Memphy) (retfpn : ℕ)
    → get_freefp (with_frames mp end) retfpn ≡ ok (failure, with_frames mp end, retfpn)
unfolding get_freefp
get_freefp-end mp retfpn = refl
