-- ===== src/Lib.antt =====
-- The parts of the fesos kernel that manage memory, files and devices, verified.
--
-- The program is a hobby kernel for x86_64. Its physical memory manager hands out frames of 4096
-- bytes from a bitmap; the page tables take their frames from it; the block layer pins the pages
-- of a buffer before it calls a driver. An AVL tree, with a comparison and an update callback as
-- parameters, is the container of its virtual memory areas and of its open files. Strings and
-- blocks of memory are served by small functions that all parts call.
--
-- Machine models what the parts share: memory as bytes at virtual addresses (Machine/Memory), the
-- static variables of the kernel, and runs, which return a value with the new kernel or halt.
--
-- Pmm models kernel/x86_64/memory/pmm.c, with one definition for each function and one for each
-- loop, under the names of the source: probe and scan are the inner and the outer loop of
-- pmm_allocate_frames, claim the loop that marks the frames, release the loop of pmm_free_frames.
-- The bitmap is bytes of the modelled memory, the same memory that pmm_zero_page clears, so that
-- a page that overlapped the bitmap would show. uint64_t arithmetic is taken modulo 2 ^ 64.
-- Pmm/Bitmap has the laws of single bits and the invariant IsValid, Pmm/Probe, Pmm/Search and
-- Pmm/Claim one loop each, Pmm/Allocate and Pmm/Free the functions.
--
-- Avl models kernel/x86_64/common/ds/avl.c: nodes at addresses, NULL as 0, one definition for
-- each function with its reads and writes in their order (Avl/Nodes has the commands; a read or
-- write through NULL is a fault). The depth -1 or 0 of a missing child is counted in levels, one
-- more than the field subtree_max_depth, and depths are below 2 ^ 31, so that no conversion to
-- int changes them. Avl/Tree has trees as values and what each function does to them, Avl/Rep
-- says when a store holds a tree. Avl/Update, Avl/Focus, Avl/Relink, Avl/Rotate, Avl/Child,
-- Avl/Rebalance and Avl/Insert show function by function that the pointer program does to the
-- store what the tree function does to the tree. Avl/Shape, Avl/Cases, Avl/Grown, Avl/Balanced,
-- Avl/Growth and Avl/Order are about trees as values; Avl/Search, Avl/Calls, Avl/Extremes and
-- Avl/Remove have the calls that avl.h offers. The update callback is a field that says whether
-- there is one, and one function for all nodes of a tree, as in the callers.
--
-- Blocks and Strings model kernel/x86_64/common/stdstr.c: Blocks memset, volatile_memset and
-- memcpy, Strings the other functions, over the same bytes of memory. A string is the address of
-- its first byte, and an index is added to it without a wrap, as the language asks of the caller.
-- `char` is signed. The variable src8 of memcpy, which the code reads before it has a value, is a
-- parameter. Blocks/Written says when a range of memory has been written; Strings/Digits and
-- Strings/Print/Finish are shared by ultoa and ultox, which differ in the base, the characters
-- and the prefix.
--
-- Vmm models kernel/x86_64/memory/vmm.c: page tables in the same memory, with frames from Pmm. An
-- entry is a record with the bit fields of the source, and a number (decode and encode are the
-- two views of the union). Vmm/Entry has the laws of the two views, Vmm/Table and Vmm/Walk one
-- step of a walk, which may create a table; Vmm/Slots, Vmm/Present, Vmm/Map, Vmm/Translate and
-- Vmm/Pin are about pages whose tables are present. The static variable PML4 is an argument. The
-- function vma_demand_paging of kernel/x86_64/memory/vma.c is a parameter of its two callers.
-- Translations that the processor keeps (invlpg) are no part of the state.
--
-- Kmalloc models kernel/x86_64/memory/kmalloc.c: the buckets, and in the bytes of memory the
-- descriptors of pages, which are the first 32 bytes of each page, and the links between free
-- blocks. An assignment to a field of a descriptor writes its other fields back as they are.
-- Kmalloc/Dma has the memory for devices, over Pmm and Vmm. The areas of
-- kernel/x86_64/memory/vma.c are a record of two functions. The counts of zeros that the compiler
-- provides are written out. Kmalloc/Words, Kmalloc/Widths, Kmalloc/Descriptors and Kmalloc/Puts
-- have the laws of stored descriptors, Kmalloc/Sizes is about the choice of a bucket,
-- Kmalloc/Links and Kmalloc/Carve about a new page, Kmalloc/Reuse about kmalloc and then kfree,
-- and Kmalloc/Full about kfree in a page that was full.
--
-- Vfs models kernel/x86_64/kernel/vfs.c: nodes at addresses, which are nodes of an Avl tree as
-- well, and the bytes of memory where paths and names are. A node has room for a name of 128
-- characters, and the copy of a longer one is a fault. The drivers' tables of operations,
-- kmalloc and kfree are parameters. Vfs/Path has the lookup of a path, mounts and unmounts;
-- Vfs/Path/Keeps says what a lookup leaves alone, Vfs/Path/Lookup is about the names of a path,
-- Vfs/Path/Mount about mounts, Vfs/Path/Missing about paths that lead nowhere, Vfs/Counts about the counts of references, and Vfs/Order about
-- vfs_compare.
--
-- Pci models kernel/x86_64/buses/pci.c and kernel/x86_64/kernel/drivers.c: configuration space
-- through ports, and in Pci/Scan the loops over the bus and over the drivers. Ports and the init
-- functions of drivers act on a world that is a parameter. Pci/Scan/Tables has the invariant of
-- the tables, Pci/Scan/Sequences any sequence of calls, and Pci/Scan/Found the search for a
-- device.
--
-- Lbd models kernel/x86_64/drivers/block/lbd.c: the table of drives, which are in a store at
-- their addresses, and the checks around a driver, with vmm_pin_pages of Vmm and memcpy of Blocks. A driver is a record of functions; the
-- functions of kernel/x86_64/memory/kmalloc.c that give and take back bounce buffers are
-- parameters.
--
-- Bounds: the recursions of avl_insert and avl_get_node run on fuel, which is enough when it is
-- the height of the tree, or one more for a search; so do the loops of avl_first and avl_last.
-- The loops of str_len, str_reverse and str_cmp run on fuel and give no result when it is used
-- up; ultoa and ultox give theirs the size of the buffer, which is enough. The outer loop of
-- pmm_allocate_frames gets one round more than there are frames, which is enough since each round
-- raises the base by at least one frame. The loop of vmm_pin_pages gets fuel as an argument; one
-- round more than pages is enough. The loops of vfs_lookup run on fuel; two more than the
-- characters of the path are enough.
--
-- Not modelled: the virtual memory areas, the RAM file system, the AHCI driver, interrupts, time,
-- log output, assembly, and the boot loader.
pub mod Prelude
pub mod Machine
pub mod Pmm
pub mod Avl
pub mod Strings
pub mod Blocks
pub mod Vmm
pub mod Kmalloc
pub mod Pci
pub mod Lbd
pub mod Vfs
