-- ===== src/Tests.antt =====
-- Concrete runs of the model, and the theorems at concrete inputs.
mod Toy
mod Prime
mod Splitting
mod Dealing
mod Recovering
mod Disk
mod Asking
mod Creating
mod Storing
mod Decoding
mod Spending
mod Signing
mod Framing
mod Sending
mod Senders
mod Commanding
mod Hosting
mod Answering
mod Transferring
mod Paying
