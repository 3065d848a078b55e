-- ===== src/Tests/Transfers.antt =====
-- Transfers of the tests' job.
use oshmpi.Prelude.{true, false, ◌-◌, ◌<◌, ◌≡◌, ◌⊎◌, some, arith, inl}
use oshmpi.Prelude.Int.{pos}
use oshmpi.Mpi.{mpi_byte, mpi_int, mpi_double, basic}
use oshmpi.Mpi.Memory.{Memory, span, tile}
use oshmpi.Mpi.Library.{eager}
use oshmpi.Contiguous.{type_contiguous_x}
use oshmpi.Contiguous.Typemap.{typemap-type_contiguous_x}
use oshmpi.Window.{sheap_window, etext_window, invalid_window, window_offset}
use oshmpi.Window.Lookup.{InSheap, InEtext, window_offset_classifies}
use oshmpi.Rma.{oshmpi_put, oshmpi_get}
use oshmpi.Rma.Places.{memory_after, remote_address, remote_address-sheap}
use oshmpi.Rma.Variants.{variant, variants_agree}
use oshmpi.Rma.Types.{Leaves, leaves, transfer-Leaves}
use oshmpi.Strided.{oshmpi_put_strided, oshmpi_get_strided}
use oshmpi.Strided.Elements.{item, put_strided-items, get_strided-items}
use oshmpi.Tests.Setting.{node, cluster, memory, node-Shared, cluster-Shared}

heap : InSheap cluster 0x100010 ⊎ InEtext cluster 0x100010
heap = inl (omega arith, omega arith)

near : 5 < remote_address eager cluster 0x100010 1
near = rw (remote_address-sheap eager cluster 0x100010 1 (omega arith, omega arith)) (omega arith)

put_strided-items_example :
    (m' : Memory) × (memory_after eager
        (oshmpi_put_strided cluster mpi_double 0x100010 0x200000 (pos 3) (pos 2) 4 1)
        memory
      ≡ some m')
    × (item eager mpi_double m' (remote_address eager cluster 0x100010 1) 3 2
        ≡ item eager mpi_double memory 0x200000 2 2)
    × (m' 5 ≡ memory 5)
put_strided-items_example =
    put_strided-items eager cluster mpi_double 4 3 2 (omega arith) (omega arith) (omega arith)
      0x100010 0x200000 1 memory (omega arith) heap 2 5 (omega arith)
      (λ i lt. inl (omega (arith, near)))

get_strided-items_example :
    (m' : Memory) × (memory_after eager
        (oshmpi_get_strided cluster mpi_double 0x200000 0x100010 (pos 3) (pos 2) 4 1)
        memory
      ≡ some m')
    × (item eager mpi_double m' 0x200000 3 2
        ≡ item eager mpi_double memory (remote_address eager cluster 0x100010 1) 2 2)
    × (m' 5 ≡ memory 5)
get_strided-items_example =
    get_strided-items eager cluster mpi_double 4 3 2 (omega arith) (omega arith) (omega arith)
      0x200000 0x100010 1 memory (omega arith) heap 2 5 (omega arith) (λ i lt. inl (omega arith))

-- The address just behind the heap.
window_offset_classifies_example :
    (InSheap node 0x101000
      × (window_offset node 0x101000 1
          ≡ record { rc = 0; win_id = sheap_window; win_offset = pos (0x101000 - 0x100000) }))
    ⊎ ((¬ InSheap node 0x101000)
        × InEtext node 0x101000
        × (window_offset node 0x101000 1
            ≡ record { rc = 0; win_id = etext_window; win_offset = pos (0x101000 - 0x800000) }))
    ⊎ ((¬ InSheap node 0x101000)
        × (¬ InEtext node 0x101000)
        × (window_offset node 0x101000 1
            ≡ record { rc = 1; win_id = invalid_window; win_offset = pos 0 }))
window_offset_classifies_example = window_offset_classifies node 0x101000 1

transfer-Leaves_example :
    Leaves
      (leaves eager cluster mpi_byte 2147483647 1 (window_offset cluster 0x100010 1))
      (oshmpi_put eager cluster mpi_byte 0x100010 0x200000 2147483647 1)
    × Leaves
        (leaves eager cluster mpi_byte 2147483647 1 (window_offset cluster 0x200000 1))
        (oshmpi_get eager cluster mpi_byte 0x100010 0x200000 2147483647 1)
transfer-Leaves_example = transfer-Leaves eager cluster mpi_byte 2147483647 1 0x100010 0x200000

typemap-type_contiguous_x_example :
    eager.typemap (type_contiguous_x eager.extent 5000000000 (basic mpi_byte)).0
    ≡ tile 5000000000 1 (span 0 1)
typemap-type_contiguous_x_example =
    typemap-type_contiguous_x eager 5000000000 (basic mpi_byte) (omega arith) (omega arith)

variants_agree_example :
    (memory_after eager
        (oshmpi_put eager (variant node true true false) mpi_int 0x100010 0x100040 3 2)
        memory
      ≡ memory_after eager (oshmpi_put eager node mpi_int 0x100010 0x100040 3 2) memory)
    × (memory_after eager
          (oshmpi_get eager (variant node true true false) mpi_int 0x100010 0x100040 3 2)
          memory
        ≡ memory_after eager (oshmpi_get eager node mpi_int 0x100010 0x100040 3 2) memory)
variants_agree_example =
    variants_agree eager node true true false mpi_int 3 2
      (record { shared = node-Shared; chunks = omega arith; bytes = omega arith })
      (record { shared = cluster-Shared; chunks = omega arith; bytes = omega arith }) 0x100010
      0x100040 memory (inl (omega arith, omega arith)) (inl (omega arith, omega arith))
