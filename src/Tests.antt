-- ===== src/Tests.antt =====
-- Runs of the models on concrete inputs, among them one input for each theorem with a condition.
mod OnHeap
mod OnShell
mod OnLlist
mod OnUserHeap
mod OnPaging
mod OnMemory
mod OnText
mod OnOrdlist
mod OnBitset
mod OnKqueue
mod OnLocks
mod OnPipe
mod OnFs
mod OnVec
mod OnDescriptor
mod OnChildren
mod OnKstring
mod OnPathbuf
mod State
mod OnTerminal
mod OnTask
mod OnSyscall
