-- ===== src/Heap/Cut.antt =====
-- Cutting the blocks of the kernel heap of src/kheap.c at a run of them, and replacing the run.
use eedox.Base.{ℕ, ◌+◌, ◌^◌, ◌<◌, ◌≡◌, sym, ap, subst, List, ◌++◌, arith}
use eedox.Ordlist.Held.{held}
use eedox.Heap.{HeapState, header_size}
use eedox.Heap.Blocks.{
  Block, extent, last_header, Laid, holes_at, IsTiled, extent-append, holes_at-append, Laid-append,
  Laid-front, Laid-back, Laid-same, Laid-prev,
}

-- What stands in front of a run of blocks, the run, and what stands behind it. `here` is the address
-- of the run and `there` the address behind it.
pub record Cut (s : HeapState) (pre mid post : List Block) : Type 0 where
  pub front : Laid s.headers s.heap.start 0 pre
  pub run : Laid s.headers (s.heap.start + extent pre) (last_header s.heap.start 0 pre) mid
  pub back :
      Laid s.headers
        (s.heap.start + extent pre + extent mid)
        (last_header (s.heap.start + extent pre) (last_header s.heap.start 0 pre) mid)
        post
  pub whole : extent pre + extent mid + extent post ≡ s.heap.size + header_size
  pub index :
      (x : ℕ)
      → held s.heap.index x
        ≡ holes_at s.heap.start pre x
          + holes_at (s.heap.start + extent pre) mid x
          + holes_at (s.heap.start + extent pre + extent mid) post x
  pub low : 1 < s.heap.start
  pub high : s.heap.start + s.heap.size + header_size < 2 ^ 32

pub IsTiled-Cut :
    (s : HeapState) (pre mid post : List Block)
    → IsTiled s (pre ++ (mid ++ post))
    → Cut s pre mid post
IsTiled-Cut s pre mid post t =
    let l = Laid-back s.headers s.heap.start 0 pre (mid ++ post) t.laid in
    record {
      front = Laid-front s.headers s.heap.start 0 pre (mid ++ post) t.laid;
      run = Laid-front s.headers _ _ mid post l;
      back = Laid-back s.headers _ _ mid post l;
      whole = omega (arith, t.whole, extent-append pre (mid ++ post), extent-append mid post);
      index = λ x. omega (
        arith,
        t.index x,
        holes_at-append s.heap.start pre (mid ++ post) x,
        holes_at-append (s.heap.start + extent pre) mid post x,
      );
      low = t.low;
      high = t.high;
    }

pub Cut-IsTiled :
    (s : HeapState) (pre mid post : List Block)
    → Cut s pre mid post
    → IsTiled s (pre ++ (mid ++ post))
Cut-IsTiled s pre mid post c = record {
  laid =
      Laid-append s.headers s.heap.start 0 pre (mid ++ post) c.front
        (Laid-append s.headers _ _ mid post c.run c.back);
  whole = omega (arith, c.whole, extent-append pre (mid ++ post), extent-append mid post);
  index = λ x. omega (
    arith,
    c.index x,
    holes_at-append s.heap.start pre (mid ++ post) x,
    holes_at-append (s.heap.start + extent pre) mid post x,
  );
  low = c.low;
  high = c.high;
}

-- A run is replaced by another of the same extent. Nothing outside the run changes but the first
-- header behind it, which may get a new predecessor, and the index changes by the holes of the run.
pub Cut-replace :
    (s s' : HeapState) (pre mid mid' post : List Block)
    → Cut s pre mid post
    → s'.heap.start ≡ s.heap.start
    → s'.heap.size ≡ s.heap.size
    → extent mid' ≡ extent mid
    → ((x : ℕ) → x < s.heap.start + extent pre → s'.headers x ≡ s.headers x)
    → Laid s'.headers (s.heap.start + extent pre) (last_header s.heap.start 0 pre) mid'
    → ((x : ℕ) → s.heap.start + extent pre + extent mid < x → s'.headers x ≡ s.headers x)
    → (0 < extent post
        → s'.headers (s.heap.start + extent pre + extent mid)
          ≡ record (s.headers (s.heap.start + extent pre + extent mid)) {
            prev = last_header (s.heap.start + extent pre) (last_header s.heap.start 0 pre) mid';
          })
    → ((x : ℕ)
        → held s'.heap.index x + holes_at (s.heap.start + extent pre) mid x
          ≡ held s.heap.index x + holes_at (s.heap.start + extent pre) mid' x)
    → Cut s' pre mid' post
Cut-replace s s' pre mid mid' post c e f g before run after next index = record {
  front =
      subst (λ a. Laid s'.headers a 0 pre) (sym e)
        (Laid-same s.headers s'.headers s.heap.start 0 pre (λ x l m. before x m) c.front);
  run = subst (λ a. Laid s'.headers (a + extent pre) (last_header a 0 pre) mid') (sym e) run;
  back =
      subst
        (λ a.
          Laid s'.headers (a + extent pre + extent mid')
            (last_header (a + extent pre) (last_header a 0 pre) mid') post)
        (sym e)
        (subst
          (λ n.
            Laid s'.headers (s.heap.start + extent pre + n)
              (last_header (s.heap.start + extent pre) (last_header s.heap.start 0 pre) mid') post)
          (sym g) (Laid-prev s.headers s'.headers _ _ _ post (λ x l m. after x l) next c.back));
  whole = omega (arith, c.whole, f, g);
  index =
      subst
        (λ a.
          (x : ℕ)
          → held s'.heap.index x
            ≡ holes_at a pre x
              + holes_at (a + extent pre) mid' x
              + holes_at (a + extent pre + extent mid') post x)
        (sym e)
        (λ x.
          omega (
            arith,
            c.index x,
            index x,
            ap (λ n. holes_at (s.heap.start + extent pre + n) post x) g,
          ));
  low = omega (arith, c.low, e);
  high = omega (arith, c.high, e, f);
}
