-- ===== src/Tests.antt =====
-- Runs of the model on small inputs, and each theorem at an input that meets its hypotheses.
mod Import
mod Python
mod Text
mod Output
mod Generated
mod Console
mod Values
