-- ===== src/Kmalloc/Dma.antt =====
-- Memory for devices: kmap_mmio, kunmap_mmio, and the DMA blocks of kernel/x86_64/memory/kmalloc.c.
use fesos.Prelude.{
  ℕ, zero, suc, ◌+◌, ◌-◌, ◌*◌, ◌%◌, Bool, true, false, ◌==◌, if◌then◌else◌, add64, mul64,
}
use fesos.Machine.{ScatterBlock}
use fesos.Pmm.{pmm_allocate_frames, pmm_free_frames}
use fesos.Vmm.{vmm_map}
use fesos.Kmalloc.State.{
  HeapM, pure, ◌>>=◌, ◌>>◌, on_kernel, null, load_word, store_word, vma_hardware_mmio,
  vma_unmanaged_mapping, mmio, unmanaged, vma_tree_kmmio, Vma,
}
use fesos.Kmalloc.{kmalloc, kfree}

-- mmio_flags_t
pub data MmioFlags : Type 0 where
  mmio_default mmio_write_combining : MmioFlags

-- dma_block_t
pub record DmaBlock : Type 0 where
  pub virtual_addr : ℕ
  pub physical_addr : ℕ
  pub page_count : ℕ

-- PT_GLOBAL | PT_WRITEABLE, and PT_DISABLE_CACHING for the default.
pub mmio_vmm_flags : MmioFlags → ℕ
mmio_vmm_flags mmio_default = 0x29
mmio_vmm_flags mmio_write_combining = 0x21

-- The size with the offset in the first page, rounded up to whole pages.
pub mmio_size : ℕ → ℕ → ℕ
mmio_size physical_address size =
    let end = add64 (add64 size (physical_address % 4096)) 0xFFF in end - end % 4096

module _ (vma : Vma) where
  pub kmap_mmio : ℕ → ℕ → MmioFlags → HeapM ℕ
  unfolding mmio_vmm_flags mmio_size
  kmap_mmio physical_address size mmio_flag = do
    virtual_base ←
        vma.allocate (mmio_size physical_address size) vma_hardware_mmio (mmio_vmm_flags mmio_flag)
          (mmio (physical_address - physical_address % 4096))
    if virtual_base == null then pure null else pure (add64 virtual_base (physical_address % 4096))

  pub kunmap_mmio : ℕ → HeapM (Unit {0})
  kunmap_mmio virtual_address = vma.free virtual_address

  pub kallocate_dma : ℕ → HeapM DmaBlock
  unfolding kmap_mmio
  kallocate_dma page_count = do
    physical_address ← on_kernel (pmm_allocate_frames page_count 0x1000)
    if physical_address == 0
        then pure (record {
          virtual_addr = null;
          physical_addr = physical_address;
          page_count = page_count;
        })
        else (do
          virtual_addr ← kmap_mmio physical_address (mul64 4096 page_count) mmio_default
          pure (record {
            virtual_addr = virtual_addr;
            physical_addr = physical_address;
            page_count = page_count;
          }))

  pub kfree_dma : DmaBlock → HeapM (Unit {0})
  kfree_dma block = do
    on_kernel (pmm_free_frames block.physical_addr block.page_count)
    vma.free block.virtual_addr

  -- The static variable PML4, and what a caller finds in the fields that are not set.
  module _ (pml4 : ℕ) (unset : ScatterBlock) where
    -- The loop over the pages, with those that are left; the result is whether every page got a frame.
    pub scatter_loop : ℕ → ℕ → ℕ → ℕ → HeapM Bool
    scatter_loop zero physical_addresses current_v_address page = pure true
    scatter_loop (suc left) physical_addresses current_v_address page = do
      new_frame ← on_kernel (pmm_allocate_frames 1 0x1000)
      elim (new_frame == 0) [
        | true ↦ pure false
        | false ↦ do
          on_kernel (vmm_map pml4 current_v_address new_frame 1 0x29)
          store_word (add64 physical_addresses (8 * page)) new_frame
          scatter_loop left physical_addresses (add64 current_v_address 0x1000) (page + 1)
      ]

    pub kallocate_scatter_dma : ℕ → HeapM ScatterBlock
    unfolding scatter_loop
    kallocate_scatter_dma page_count =
        if page_count == 0 then pure (record unset { virtual_addr = null }) else do
          physical_addresses ← kmalloc vma (mul64 8 page_count)
          if physical_addresses == null then pure (record unset { virtual_addr = null }) else (do
            virtual_address ←
                vma.allocate (mul64 page_count 0x1000) vma_unmanaged_mapping 0
                  (unmanaged vma_tree_kmmio)
            if virtual_address == null
                then (do kfree vma physical_addresses; pure (record unset { virtual_addr = null }))
                else (do
                  complete ← scatter_loop page_count physical_addresses virtual_address 0
                  if complete
                      then pure (record {
                        virtual_addr = virtual_address;
                        physical_addrs = physical_addresses;
                        page_count = page_count;
                      })
                      else (do
                        kfree vma physical_addresses
                        pure (record unset { virtual_addr = null }))))

  -- The loop that frees the frames, with those that are left.
  pub free_frames_loop : ℕ → ℕ → ℕ → HeapM (Unit {0})
  free_frames_loop zero physical_addrs page = pure tt
  free_frames_loop (suc left) physical_addrs page = do
    frame ← load_word (add64 physical_addrs (8 * page))
    on_kernel (pmm_free_frames frame 1)
    free_frames_loop left physical_addrs (page + 1)

  pub kfree_scatter_dma : ScatterBlock → HeapM (Unit {0})
  unfolding free_frames_loop
  kfree_scatter_dma block = do
    vma.free block.virtual_addr
    free_frames_loop block.page_count block.physical_addrs 0
    kfree vma block.physical_addrs
