-- ===== src/Tests.antt =====
-- Runs of the model at concrete inputs, and the theorems at inputs that meet their hypotheses.
mod CacheSamples
mod LedgerSamples
mod IndexSamples
mod StashSamples
mod QuerySamples
mod SandboxSamples
mod MemorySamples
mod CompressSamples
mod ClassifierSamples
mod WatcherSamples
mod SearchSamples
mod HandlerSamples
mod RecordSamples
mod CallSamples
